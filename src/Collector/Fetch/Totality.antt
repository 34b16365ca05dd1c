-- ===== src/Collector/Fetch/Totality.antt =====
-- When the fetch of an account panics.
use liberdus_proxy.Prelude.{
  Option, none, some, List, [], ◌∷◌, Text, codes, ◌≡◌, refl, ◌↔◌, Result, ok, err, panicked, arith,
}
use liberdus_proxy.Json.{Value, get}
use liberdus_proxy.Collector.Fetch.{
  Api, CollectorAccountResp, api_url, body_of, data_of, first_data, account_in,
  get_account_by_address,
}

-- A response with accounts, of which the first has no "data".
pub HasNoData : Result Text CollectorAccountResp → Type 0
HasNoData (err e) = ⊥
HasNoData (ok result) =
    (account : Value) × (rest : List Value) × (result.accounts ≡ account ∷ rest)
    × (get (codes "data") account ≡ none)

data_of-panics : (o : Option Value) → data_of o ≡ panicked → o ≡ none
unfolding data_of
data_of-panics none h = refl
data_of-panics (some found) h = ground (arith, h)

first_data-panics :
    (accounts : List Value)
    → first_data accounts ≡ panicked
    → (account : Value) × (rest : List Value) × (accounts ≡ account ∷ rest)
      × (get (codes "data") account ≡ none)
unfolding first_data
first_data-panics [] h = ground (arith, h)
first_data-panics (account ∷ rest) h =
    (account, rest, refl, data_of-panics (get (codes "data") account) h)

account_in-panics : (r : Result Text CollectorAccountResp) → account_in r ≡ panicked → HasNoData r
unfolding account_in HasNoData
account_in-panics (err e) h = ground (arith, h)
account_in-panics (ok result) h = first_data-panics result.accounts h

HasNoData-panics : (r : Result Text CollectorAccountResp) → HasNoData r → account_in r ≡ panicked
unfolding account_in HasNoData data_of first_data
HasNoData-panics (err e) h = absurd h
HasNoData-panics (ok result) (account, rest, listed, absent) = rw (listed, absent, first_data) refl

-- The fetch of an account panics exactly when the collector answers with status 200 and accounts of
-- which the first has no "data"; otherwise it returns an account or an error.
pub get_account_by_address-panics_iff :
    (api : Api) (collector_ip collector_port account_id : Text)
    → (get_account_by_address api collector_ip collector_port account_id ≡ panicked)
      ↔ HasNoData (
          body_of (
            api.account_resp
              (api_url collector_ip collector_port (codes "account?accountId=") account_id)))
unfolding get_account_by_address
get_account_by_address-panics_iff api collector_ip collector_port account_id = (
  account_in-panics (
      body_of (
        api.account_resp
          (api_url collector_ip collector_port (codes "account?accountId=") account_id))),
  HasNoData-panics (
      body_of (
        api.account_resp
          (api_url collector_ip collector_port (codes "account?accountId=") account_id))),
)
