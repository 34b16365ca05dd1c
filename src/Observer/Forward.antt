-- ===== src/Observer/Forward.antt =====
-- A transaction request goes to the observers in turn, up to the first that answers it.
pub mod First
use liberdus_proxy.Prelude.{
  ℕ, ◌&&◌, leb, Bool, Option, none, some, List, [], ◌∷◌, ◌++◌, Text, codes, is_empty, if◌then◌else◌,
  Result, ok, err,
}
use liberdus_proxy.Json.{ℤ, Serde}
use liberdus_proxy.Http.Respond.{json_header, gateway_timeout}
use liberdus_proxy.Http.Peer.{Client, Reply, respond, reply_with}
use liberdus_proxy.Observer.Query.{parse_since_tx_timestamp, normalize_transaction_route_params}
use liberdus_proxy.Observer.Rotation.{observer_urls_round_robin}
use liberdus_proxy.Observer.Filter.{filter_transaction_response_by_timestamp}
use liberdus_proxy.Observer.Answer.{respond_503}

-- What an observer does with a request: no response, or a status and then the body or an error.
pub data Observed : Type 0 where
  no_response : Text → Observed
  responded : ℕ → Result Text Text → Observed

abbrev pub is_success : ℕ → Bool
is_success status = leb 200 status && leb status 299

-- `respond_with_json` of src/http.rs to a client whose writes may fail.
unfoldable pub respond_with_json_to : Client → Text → Reply
respond_with_json_to client body = elim (client 0) [
  | some e ↦ record { written = []; result = err e }
  | none ↦ respond (client 1) (json_header (codes "200 OK") body ∷ []) body (ok tt)
]

respond_filtered : Client → Result Text Text → Reply
respond_filtered client (err e) = record { written = []; result = err e }
respond_filtered client (ok filtered) = respond_with_json_to client filtered

-- An error in reading or filtering the body ends the handler without a response.
unfoldable pub deliver : Serde → Client → Option ℤ → Result Text Text → Reply
unfolding respond_filtered
deliver serde client since_filter (err e) = record { written = []; result = err e }
deliver serde client none (ok body) = respond_with_json_to client body
deliver serde client (some since_ms) (ok body) =
    respond_filtered client (filter_transaction_response_by_timestamp serde body since_ms)

module _ (serde : Serde) (observer : Text → Observed) (client : Client) where
  unfoldable pub try_each : Text → Option ℤ → List Text → Reply
  try_each route since_filter [] =
      reply_with client gateway_timeout (codes "all observer transaction requests failed")
  try_each route since_filter (base ∷ rest) =
      let later = try_each route since_filter rest in
      elim (observer (base ++ route)) [
        | no_response e ↦ later
        | responded status body ↦
            if is_success status then deliver serde client since_filter body else later
      ]

  -- The handler, and the counter after it.
  unfoldable pub forward_transaction_get_to_observers : Text → List Text → ℕ → Reply × ℕ
  unfolding try_each
  forward_transaction_get_to_observers route observer_urls index =
      if is_empty observer_urls
      then (respond_503 client (codes "observer_urls not configured"), index)
      else let turn = observer_urls_round_robin observer_urls index in
        let normalized = normalize_transaction_route_params route in
        (try_each normalized (parse_since_tx_timestamp normalized) (turn.0), turn.1)
