-- ===== src/Observer/Forward/First.antt =====
-- Which observer's response the client gets.
use liberdus_proxy.Prelude.{
  ℕ, true, false, Option, List, [], ◌∷◌, ◌++◌, Text, codes, is_empty, ◌≡◌, refl, ◌∙◌, ap, All,
  Result, ok, err, none, some,
}
use liberdus_proxy.Json.{ℤ, Serde}
use liberdus_proxy.Http.Respond.{json_header, gateway_timeout}
use liberdus_proxy.Http.Peer.{Client, Reply, respond, reply_with}
use liberdus_proxy.Observer.Query.{parse_since_tx_timestamp, normalize_transaction_route_params}
use liberdus_proxy.Observer.Rotation.{observer_urls_round_robin}
use liberdus_proxy.Observer.Filter.{filter_transaction_response_by_timestamp}
use liberdus_proxy.Observer.Forward.{
  Observed, no_response, responded, is_success, deliver, respond_filtered, respond_with_json_to,
  try_each, forward_transaction_get_to_observers,
}

-- No response, or one without a success status.
pub data Fails : Observed → Type 0 where
  none_came : (e : Text) → Fails (no_response e)
  refused :
      (status : ℕ) (body : Result Text Text)
      → is_success status ≡ false
      → Fails (responded status body)

-- A response of a JSON body, and none with the handler's error.
abbrev pub json_reply : Text → Reply
json_reply body = record { written = json_header (codes "200 OK") body ∷ body ∷ []; result = ok tt }

abbrev pub no_reply : Text → Reply
no_reply e = record { written = []; result = err e }

-- What the client gets for what was read of the body, with the query's timestamp if it has one.
pub data IsDelivered (serde : Serde) (since_filter : Option ℤ)
    : Result Text Text → Reply → Type 0 where
  unread : (e : Text) → IsDelivered serde since_filter (err e) (no_reply e)
  whole :
      (body : Text)
      → since_filter ≡ none
      → IsDelivered serde since_filter (ok body) (json_reply body)
  filtered :
      (body kept : Text) (since_ms : ℤ)
      → since_filter ≡ some since_ms
      → filter_transaction_response_by_timestamp serde body since_ms ≡ ok kept
      → IsDelivered serde since_filter (ok body) (json_reply kept)
  not_filtered :
      (body e : Text) (since_ms : ℤ)
      → since_filter ≡ some since_ms
      → filter_transaction_response_by_timestamp serde body since_ms ≡ err e
      → IsDelivered serde since_filter (ok body) (no_reply e)

module _ (serde : Serde) (client : Client) (first : client 0 ≡ none)
    (second : client 1 ≡ none) where
  respond_with_json_to-all : (body : Text) → respond_with_json_to client body ≡ json_reply body
  unfolding respond_with_json_to respond
  respond_with_json_to-all body =
      let opened : respond_with_json_to client body
          ≡ respond (client 1) (json_header (codes "200 OK") body ∷ []) body (ok tt) =
        rw (first, respond_with_json_to) refl in
      opened ∙ ap (λ o. respond o (json_header (codes "200 OK") body ∷ []) body (ok tt)) second

  IsDelivered-deliver :
      (since_filter : Option ℤ) (body : Result Text Text)
      → IsDelivered serde since_filter body (deliver serde client since_filter body)
  unfolding deliver
  IsDelivered-deliver since_filter (err e) = unread e
  IsDelivered-deliver none (ok body) = rw (respond_with_json_to-all body) (whole body refl)
  IsDelivered-deliver (some since_ms) (ok body) =
      by_filter (filter_transaction_response_by_timestamp serde body since_ms) refl
    where
      by_filter :
          (r : Result Text Text)
          → filter_transaction_response_by_timestamp serde body since_ms ≡ r
          → IsDelivered serde (some since_ms) (ok body) (respond_filtered client r)
      by_filter (err e) h = not_filtered body e since_ms refl h
      by_filter (ok kept) h =
          rw (respond_with_json_to-all kept) (filtered body kept since_ms refl h)

module _ (serde : Serde) (observer : Text → Observed) (client : Client) where
  try_each-Fails :
      (route : Text) (since_filter : Option ℤ) (base : Text) (rest : List Text) (o : Observed)
      → observer (base ++ route) ≡ o
      → Fails o
      → try_each serde observer client route since_filter (base ∷ rest)
        ≡ try_each serde observer client route since_filter rest
  unfolding try_each
  try_each-Fails route since_filter base rest _ e (none_came why) = rw (e, try_each) refl
  try_each-Fails route since_filter base rest _ e (refused status body h) = rw (e, h, try_each) refl

  try_each-append :
      (route : Text) (since_filter : Option ℤ) (before rest : List Text)
      → All (λ base. Fails (observer (base ++ route))) before
      → try_each serde observer client route since_filter (before ++ rest)
        ≡ try_each serde observer client route since_filter rest
  try_each-append route since_filter [] rest fails = refl
  try_each-append route since_filter (base ∷ before) rest (fails, all_fail) =
      try_each-Fails route since_filter base (before ++ rest) (observer (base ++ route)) refl fails
      ∙ try_each-append route since_filter before rest all_fail

  module _ (route : Text) (observer_urls : List Text) (index : ℕ)
      (configured : is_empty observer_urls ≡ false) where
    forward-turn :
        (urls : List Text)
        → (observer_urls_round_robin observer_urls index).0 ≡ urls
        → forward_transaction_get_to_observers serde observer client route observer_urls index ≡ (
          try_each serde observer client
              (normalize_transaction_route_params route)
              (parse_since_tx_timestamp (normalize_transaction_route_params route))
              urls,
          (observer_urls_round_robin observer_urls index).1,
        )
    unfolding forward_transaction_get_to_observers
    forward-turn urls e = rw (configured, e) refl

    forward_deliver :
        (before : List Text) (base : Text) (after : List Text) (status : ℕ)
        (body : Result Text Text)
        → (observer_urls_round_robin observer_urls index).0 ≡ before ++ (base ∷ after)
        → All (λ url. Fails (observer (url ++ normalize_transaction_route_params route))) before
        → observer (base ++ normalize_transaction_route_params route) ≡ responded status body
        → is_success status ≡ true
        → (forward_transaction_get_to_observers serde observer client route observer_urls index).0
          ≡ deliver serde client
              (parse_since_tx_timestamp (normalize_transaction_route_params route))
              body
    unfolding try_each
    forward_deliver before base after status body turn fails answer success =
        ap (λ p. p.0) (forward-turn (before ++ (base ∷ after)) turn)
        ∙ try_each-append (normalize_transaction_route_params route)
            (parse_since_tx_timestamp (normalize_transaction_route_params route)) before
            (base ∷ after) fails
        ∙ rw (answer, success, try_each) refl

    -- The observers are asked in the order of the turn, and the first that answers with a success
    -- status decides what a client gets that takes all writes: its body; if the query has a timestamp,
    -- what the filter leaves of it; and nothing, with the handler's error, where the body cannot be read
    -- or filtered. Those behind it play no part.
    pub forward-first :
        (before : List Text) (base : Text) (after : List Text) (status : ℕ)
        (body : Result Text Text)
        → client 0 ≡ none
        → client 1 ≡ none
        → (observer_urls_round_robin observer_urls index).0 ≡ before ++ (base ∷ after)
        → All (λ url. Fails (observer (url ++ normalize_transaction_route_params route))) before
        → observer (base ++ normalize_transaction_route_params route) ≡ responded status body
        → is_success status ≡ true
        → IsDelivered serde
            (parse_since_tx_timestamp (normalize_transaction_route_params route))
            body
            ((forward_transaction_get_to_observers serde observer client route observer_urls
              index).0)
    forward-first before base after status body first second turn fails answer success =
        rw (forward_deliver before base after status body turn fails answer success) (
          IsDelivered-deliver serde client first second
            (parse_since_tx_timestamp (normalize_transaction_route_params route)) body)

    -- Where no observer answers with a success status, the client gets a gateway timeout.
    pub forward-none :
        (urls : List Text)
        → (observer_urls_round_robin observer_urls index).0 ≡ urls ++ []
        → All (λ url. Fails (observer (url ++ normalize_transaction_route_params route))) urls
        → (forward_transaction_get_to_observers serde observer client route observer_urls index).0
          ≡ reply_with client gateway_timeout (codes "all observer transaction requests failed")
    unfolding try_each
    forward-none urls turn fails =
        ap (λ p. p.0) (forward-turn (urls ++ []) turn)
        ∙ try_each-append (normalize_transaction_route_params route)
            (parse_since_tx_timestamp (normalize_transaction_route_params route)) urls [] fails
