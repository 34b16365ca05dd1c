-- ===== src/Observer.antt =====
-- src/observer_gateway.rs: requests to the bridge's observers.
pub mod Url
pub mod Query
pub mod Rotation
pub mod Filter
pub mod Answer
pub mod Forward
pub mod Posts
mod Tests
use liberdus_proxy.Prelude.{
  ℕ, Bool, true, false, not, ◌&&◌, ◌||◌, Option, none, some, List, [], ◌∷◌, ◌++◌, map, Text, codes,
  text_beq, is_empty, if◌then◌else◌, Result, ok, err,
}
use liberdus_proxy.Str.Find.{starts_with, strip_prefix, split_once}
use liberdus_proxy.Json.{Serde, Value, get, as_u64, as_i64}
use liberdus_proxy.Config.{Config}
use liberdus_proxy.Http.Header.{ascii_lower, extract_body}
use liberdus_proxy.Http.Peer.{Client, Reply}
use liberdus_proxy.Http.Route.{get_route, is_one_of}
use liberdus_proxy.Observer.Query.{path_of, query_of, validate_transaction_query}
use liberdus_proxy.Observer.Rotation.{configured_observer_urls}
use liberdus_proxy.Observer.Answer.{
  err_body, escape_json, respond_json, respond_503, respond_preflight,
}
use liberdus_proxy.Observer.Forward.{Observed, forward_transaction_get_to_observers}

unfoldable pub is_allowed_observer_resource : Text → Bool
is_allowed_observer_resource route = is_one_of (path_of route) (
    codes "/observer/notify-bridgeout"
    ∷ codes "/observer/transaction"
    ∷ codes "/observer/transactions"
    ∷ [])

-- `ObserverEndpoint` has the same constructors for the three that are allowed.
pub data ObserverEndpointValidation : Type 0 where
  allowed_notify_bridgeout : ObserverEndpointValidation
  allowed_preflight : ObserverEndpointValidation
  allowed_transaction_get : Text → ObserverEndpointValidation
  bad_request : Text → ObserverEndpointValidation
  method_not_allowed : ObserverEndpointValidation
  unsupported_route : ObserverEndpointValidation

with_slash : Text → Text
with_slash stripped =
    if is_empty stripped
    then codes "/"
    else if starts_with stripped (codes "/")
    then stripped
    else codes "/" ++ stripped

unfoldable pub normalize_path : Text → Text
unfolding with_slash
normalize_path path_only = elim (strip_prefix path_only (codes "/observer")) [
  | none ↦ path_only
  | some stripped ↦ with_slash stripped
]

unfoldable pub normalize_observer_route : Text → Text
normalize_observer_route route =
    if is_empty (query_of route)
    then normalize_path (path_of route)
    else normalize_path (path_of route) ++ codes "?" ++ query_of route

-- `eq_ignore_ascii_case` with an upper-case word, by its lower case.
abbrev pub is_method : Text → Text → Bool
is_method method lower_case = text_beq (map ascii_lower method) lower_case

validated : Text → Result Text (Unit {0}) → ObserverEndpointValidation
validated normalized_route (err msg) = bad_request msg
validated normalized_route (ok u) = allowed_transaction_get normalized_route

validate_path : Text → Text → Text → ObserverEndpointValidation
validate_path method normalized_route path =
    let is_notify = text_beq path (codes "/notify-bridgeout") in
    let is_transaction = is_one_of path (codes "/transaction" ∷ codes "/transactions" ∷ []) in
    if is_notify && is_method method (codes "post")
    then allowed_notify_bridgeout
    else if is_notify && is_method method (codes "options")
    then allowed_preflight
    else if is_transaction && is_method method (codes "get")
    then validated normalized_route (validate_transaction_query normalized_route)
    else if is_notify || is_transaction
    then method_not_allowed
    else unsupported_route

unfoldable pub validate_observer_endpoint : Text → Text → ObserverEndpointValidation
unfolding validated validate_path
validate_observer_endpoint method route =
    if is_allowed_observer_resource route
    then validate_path method (normalize_observer_route route)
        (path_of (normalize_observer_route route))
    else unsupported_route

-- What is written to the client, and the posts that the task spawned behind it makes: each an
-- address and a body. What an observer answers to a post is only logged.
pub record Handled : Type 0 where
  pub reply : Reply
  pub posts : List (Text × Text)

abbrev pub answered : Reply → Handled
answered reply = record { reply = reply; posts = [] }

-- `{"chainId": number}`, where a number below zero counts.
chain_id_in : Value → Bool
chain_id_in v = elim (get (codes "chainId") v) [
  | none ↦ false
  | some n ↦ elim (as_u64 n) [
    | some u ↦ true
    | none ↦ elim (as_i64 n) [ none ↦ false | some i ↦ true ]
  ]
]

unfoldable pub is_chain_id_valid : Result Text Value → Bool
unfolding chain_id_in
is_chain_id_valid (err e) = false
is_chain_id_valid (ok v) = chain_id_in v

abbrev invalid_chain_id : Text
invalid_chain_id = err_body (codes "Invalid or missing chainId")

abbrev pub posts_to : Text → List Text → List (Text × Text)
posts_to body [] = []
posts_to body (base ∷ urls) = (base ++ codes "/notify-bridgeout", body) ∷ posts_to body urls

-- The task is spawned once the response is written.
accepted : Reply → List (Text × Text) → Handled
accepted reply posts = record {
  reply = reply;
  posts = elim reply.result [ err e ↦ [] | ok u ↦ posts ];
}

module _ (serde : Serde) (client : Client) where
  unfoldable pub handle_notify_bridgeout : Text → List Text → Handled
  unfolding accepted
  handle_notify_bridgeout request_buffer observer_urls =
      let body = extract_body request_buffer in
      if is_empty observer_urls
      then answered (respond_503 client (codes "observer_urls not configured"))
      else if is_empty body
      then answered (respond_json client 400 invalid_chain_id)
      else if is_chain_id_valid (serde.from_slice body)
      then accepted (respond_json client 200 (codes "{\"Ok\":\"accepted\"}"))
          (posts_to body observer_urls)
      else answered (respond_json client 400 invalid_chain_id)

  module _ (observer : Text → Observed) (config : Config) where
    -- The counter is the only state.
    serve_endpoint : Text → ObserverEndpointValidation → ℕ → Handled × ℕ
    serve_endpoint request_buffer allowed_notify_bridgeout index =
        (handle_notify_bridgeout request_buffer (configured_observer_urls config), index)
    serve_endpoint request_buffer allowed_preflight index =
        (answered (respond_preflight client), index)
    serve_endpoint request_buffer (allowed_transaction_get forward_route) index =
        let (reply, after) =
          forward_transaction_get_to_observers serde observer client forward_route
            (configured_observer_urls config) index in
        (answered reply, after)
    serve_endpoint request_buffer (bad_request message) index =
        (answered (respond_json client 400 (err_body (escape_json message))), index)
    serve_endpoint request_buffer method_not_allowed index = (
      answered (respond_json client 405 (err_body (codes "Method not allowed for observer route"))),
      index,
    )
    serve_endpoint request_buffer unsupported_route index =
        (answered (respond_json client 404 (err_body (codes "Unsupported observer route"))), index)

    serve_route : Text → Option (Text × Text) → ℕ → Handled × ℕ
    serve_route request_buffer none index =
        (answered (respond_json client 400 (err_body (codes "Invalid request line"))), index)
    serve_route request_buffer (some (method, route)) index =
        serve_endpoint request_buffer (validate_observer_endpoint method route) index

    unfoldable pub handle_request : Text → ℕ → Handled × ℕ
    unfolding serve_endpoint serve_route
    handle_request request_buffer index =
        serve_route request_buffer (get_route request_buffer) index
