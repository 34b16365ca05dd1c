-- ===== src/Collector/Fetch.antt =====
-- The fetches of src/collector.rs from the collector's API, and the account updates.
pub mod Totality
use liberdus_proxy.Prelude.{
  ℕ, Bool, true, false, ◌&&◌, not, Option, none, some, List, [], ◌∷◌, ◌++◌, map, Text, codes, ◌==◌,
  if◌then◌else◌, Result, ok, err, Outcome, returned, panicked,
}
use liberdus_proxy.Str.Decimal.{decimal}
use liberdus_proxy.Json.{
  Value, Fields, null, string, array, object, last_field, field, from_list, get, insert_field,
}

pub record OriginalTxData : Type 0 where
  pub tx : Value

pub record Transaction : Type 0 where
  pub original_tx_data : OriginalTxData
  pub tx_id : Text

pub record TxResp : Type 0 where
  pub success : Option Bool
  pub error : Option Text
  pub transactions : List Transaction

pub record CollectorAccountResp : Type 0 where
  pub accounts : List Value

-- What `reqwest::get` gives: an error, or a status with its text and what the body is read as, or
-- the error of that.
pub data Fetched (R : Type 0) : Type 0 where
  failed : Text → Fetched R
  responded : ℕ → Text → Result Text R → Fetched R

-- The collector's API, by the address that is asked.
pub record Api : Type 0 where
  pub tx_resp : Text → Fetched TxResp
  pub account_resp : Text → Fetched CollectorAccountResp
  pub value : Text → Fetched Value

-- `http://{ip}:{port}/api/{query}`, the port already a text.
abbrev pub api_url : Text → Text → Text → Text → Text
api_url ip port query argument =
    codes "http://" ++ ip ++ codes ":" ++ port ++ codes "/api/" ++ query ++ argument

first_tx : List Transaction → Option Value
first_tx [] = none
first_tx (t ∷ rest) = some t.original_tx_data.tx

tx_of : TxResp → Option Value
tx_of result = elim result.success [
  | none ↦ none
  | some success ↦ if success then first_tx result.transactions else none
]

-- Another status than 200 gives nothing, as does any error.
transaction_from : Fetched TxResp → Option Value
transaction_from (failed e) = none
transaction_from (responded status phrase (err e)) = none
transaction_from (responded status phrase (ok result)) =
    if status == 200 then tx_of result else none

unfoldable pub get_transaction : Api → Text → ℕ → Text → Option Value
unfolding first_tx tx_of transaction_from
get_transaction api collector_ip collector_port id =
    transaction_from
      (api.tx_resp (api_url collector_ip (decimal collector_port) (codes "transaction?txId=") id))

-- The collector's own `insert_field`: another value than an object stays as it is.
unfoldable pub with_field : Value → Text → Value → Value
with_field (object fields) key value = object (insert_field key value fields)
with_field obj key value = obj

-- A response of status 200 that can be read, or the error's text.
unfoldable pub body_of : {R : Type 0} → Fetched R → Result Text R
body_of (failed e) = err e
body_of (responded status phrase body) =
    if status == 200 then body else err (codes "HTTP error: " ++ phrase)

unfoldable pub with_id : Transaction → Value
with_id t = with_field t.original_tx_data.tx (codes "txId") (string t.tx_id)

or_unknown : Option Text → Text
or_unknown none = codes "Unknown error"
or_unknown (some e) = e

is_success : Option Bool → Bool
is_success none = false
is_success (some b) = b

history_from : Result Text TxResp → Result Text Value
history_from (err e) = err e
history_from (ok result) =
    if is_success result.success
    then ok (
        object (
          field (codes "transactions") (array (from_list (map with_id result.transactions)))
            last_field))
    else err (or_unknown result.error)

unfoldable pub get_transaction_history : Api → Text → ℕ → Text → Result Text Value
unfolding or_unknown is_success history_from
get_transaction_history api collector_ip collector_port account_id = history_from (
    body_of (
      api.tx_resp (
        api_url collector_ip (decimal collector_port) (codes "transaction?accountId=") account_id)))

-- The first account's "data"; an account without it panics.
data_of : Option Value → Outcome (Result Text Value)
data_of none = panicked
data_of (some found) = returned (ok found)

first_data : List Value → Outcome (Result Text Value)
first_data [] = returned (err (codes "Account not found"))
first_data (account ∷ rest) = data_of (get (codes "data") account)

account_in : Result Text CollectorAccountResp → Outcome (Result Text Value)
account_in (err e) = returned (err e)
account_in (ok result) = first_data result.accounts

unfoldable pub get_account_by_address : Api → Text → Text → Text → Outcome (Result Text Value)
unfolding data_of first_data account_in
get_account_by_address api collector_ip collector_port account_id = account_in (
    body_of (
      api.account_resp
        (api_url collector_ip collector_port (codes "account?accountId=") account_id)))

unfoldable pub get_receipt : Api → Text → ℕ → Text → Result Text Value
get_receipt api collector_ip collector_port tx_hash = body_of (
    api.value
      (api_url collector_ip (decimal collector_port) (codes "transaction?appReceiptId=") tx_hash))
