-- ===== src/Collector/Tests.antt =====
-- A collector whose account has no "data".
use liberdus_proxy.Prelude.{[], ◌∷◌, codes, ok, ◌≡◌, ◌↔◌, panicked}
use liberdus_proxy.Json.{object, last_field}
use liberdus_proxy.Collector.Fetch.{
  Api, CollectorAccountResp, failed, responded, api_url, body_of, get_account_by_address,
}
use liberdus_proxy.Collector.Fetch.Totality.{HasNoData, get_account_by_address-panics_iff}

abbrev no_data : CollectorAccountResp
no_data = record { accounts = object last_field ∷ [] }

abbrev small_api : Api
small_api = record {
  tx_resp = λ url. failed (codes "refused");
  account_resp = λ url. responded 200 (codes "200 OK") (ok no_data);
  value = λ url. failed (codes "refused");
}

get_account_by_address-panics_iff_example :
    (get_account_by_address small_api (codes "127.0.0.1") (codes "80") (codes "a") ≡ panicked)
    ↔ HasNoData (
        body_of (
          small_api.account_resp
            (api_url (codes "127.0.0.1") (codes "80") (codes "account?accountId=") (codes "a"))))
get_account_by_address-panics_iff_example =
    get_account_by_address-panics_iff small_api (codes "127.0.0.1") (codes "80") (codes "a")
