-- ===== src/Observer/Posts.antt =====
-- When the observers are told of a bridge request.
use liberdus_proxy.Prelude.{
  ℕ, true, false, Bool-cases, Option-cases, Option, none, some, List, [], ◌∷◌, Text, codes,
  is_empty, ◌≡◌, refl, ◌≢◌, arith, ◌⊎◌, inl, inr, ok,
}
use liberdus_proxy.Json.{Serde}
use liberdus_proxy.Config.{Config}
use liberdus_proxy.Http.Header.{extract_body}
use liberdus_proxy.Http.Peer.{Client, Reply, respond}
use liberdus_proxy.Http.Route.{get_route}
use liberdus_proxy.Observer.Rotation.{configured_observer_urls}
use liberdus_proxy.Observer.Answer.{json_response, respond_json}
use liberdus_proxy.Observer.Forward.{Observed}
use liberdus_proxy.Observer.{
  ObserverEndpointValidation, allowed_notify_bridgeout, allowed_preflight, allowed_transaction_get,
  bad_request, method_not_allowed, unsupported_route, validate_observer_endpoint, Handled, accepted,
  is_chain_id_valid, posts_to, handle_notify_bridgeout, serve_endpoint, serve_route, handle_request,
}

module _ (serde : Serde) (client : Client) where
  abbrev accepted_reply : Reply
  accepted_reply = record {
    written = json_response 200 (codes "{\"Ok\":\"accepted\"}") ∷ [];
    result = ok tt;
  }

  -- The response is 200, the body names a chain, and each configured observer is told once.
  pub record Notifies (request_buffer : Text) (observer_urls : List Text) (handled : Handled)
      : Type 0 where
    pub chain_id : is_chain_id_valid (serde.from_slice (extract_body request_buffer)) ≡ true
    pub reply : handled.reply ≡ accepted_reply
    pub posts : handled.posts ≡ posts_to (extract_body request_buffer) observer_urls

  -- Why a request to notify tells nobody.
  pub data IsUnable (request_buffer : Text) (observer_urls : List Text) : Type 0 where
    unconfigured : is_empty observer_urls ≡ true → IsUnable request_buffer observer_urls
    no_body : is_empty (extract_body request_buffer) ≡ true → IsUnable request_buffer observer_urls
    no_chain_id :
        is_chain_id_valid (serde.from_slice (extract_body request_buffer)) ≡ false
        → IsUnable request_buffer observer_urls
    unwritten : (e : Text) → client 0 ≡ some e → IsUnable request_buffer observer_urls

  abbrev pub NotifiesOrNot : Text → List Text → Handled → Type 0
  NotifiesOrNot request_buffer urls handled =
      ((handled.posts ≡ []) × IsUnable request_buffer urls) ⊎ Notifies request_buffer urls handled

  accepted-cases :
      (request_buffer : Text) (urls : List Text) (e : Option Text)
      → client 0 ≡ e
      → is_chain_id_valid (serde.from_slice (extract_body request_buffer)) ≡ true
      → NotifiesOrNot request_buffer urls (
          accepted
            (respond_json client 200 (codes "{\"Ok\":\"accepted\"}"))
            (posts_to (extract_body request_buffer) urls))
  unfolding accepted respond_json respond
  accepted-cases request_buffer urls none e valid =
      rw e (inr (record { chain_id = valid; reply = refl; posts = refl }))
  accepted-cases request_buffer urls (some why) e valid = rw e (inl (refl, unwritten why e))

  handle_notify_bridgeout-posts :
      (request_buffer : Text) (urls : List Text)
      → NotifiesOrNot request_buffer urls (handle_notify_bridgeout serde client request_buffer urls)
  unfolding handle_notify_bridgeout
  handle_notify_bridgeout-posts request_buffer urls = elim (Bool-cases (is_empty urls)) [
    | inl e₁ ↦ rw e₁ (inl (refl, unconfigured e₁))
    | inr e₁ ↦ elim (Bool-cases (is_empty (extract_body request_buffer))) [
      | inl e₂ ↦ rw (e₁, e₂) (inl (refl, no_body e₂))
      | inr e₂ ↦
          elim (Bool-cases (is_chain_id_valid (serde.from_slice (extract_body request_buffer)))) [
            | inl e₃ ↦ rw (e₁, e₂, e₃) (accepted-cases request_buffer urls (client 0) refl e₃)
            | inr e₃ ↦ rw (e₁, e₂, e₃) (inl (refl, no_chain_id e₃))
          ]
    ]
  ]

  module _ (observer : Text → Observed) (config : Config) where
    -- The request is one to notify, and it does.
    pub record NotifiesAll (request_buffer : Text) (handled : Handled) : Type 0 where
      pub method : Text
      pub route : Text
      pub routed : get_route request_buffer ≡ some (method, route)
      pub valid : validate_observer_endpoint method route ≡ allowed_notify_bridgeout
      pub notifies : Notifies request_buffer (configured_observer_urls config) handled

    -- Why a request tells nobody.
    pub data IsSilent (request_buffer : Text) : Type 0 where
      no_route : get_route request_buffer ≡ none → IsSilent request_buffer
      elsewhere :
          (method route : Text)
          → get_route request_buffer ≡ some (method, route)
          → validate_observer_endpoint method route ≢ allowed_notify_bridgeout
          → IsSilent request_buffer
      unable : IsUnable request_buffer (configured_observer_urls config) → IsSilent request_buffer

    abbrev pub NotifiesAllOrNot : Text → Handled → Type 0
    NotifiesAllOrNot request_buffer handled =
        ((handled.posts ≡ []) × IsSilent request_buffer) ⊎ NotifiesAll request_buffer handled

    serve_endpoint-posts :
        (request_buffer method route : Text) (index : ℕ) (v : ObserverEndpointValidation)
        → get_route request_buffer ≡ some (method, route)
        → validate_observer_endpoint method route ≡ v
        → NotifiesAllOrNot request_buffer
            ((serve_endpoint serde client observer config request_buffer v index).0)
    unfolding serve_endpoint
    serve_endpoint-posts request_buffer method route index allowed_notify_bridgeout e v =
        elim (handle_notify_bridgeout-posts request_buffer (configured_observer_urls config)) [
          | inl (h, why) ↦ inl (h, unable why)
          | inr h ↦
              inr (record { method = method; route = route; routed = e; valid = v; notifies = h })
        ]
    serve_endpoint-posts request_buffer method route index allowed_preflight e v =
        inl (refl, elsewhere method route e λ h. ground (arith, v, h))
    serve_endpoint-posts request_buffer method route index (allowed_transaction_get r) e v =
        inl (refl, elsewhere method route e λ h. ground (arith, v, h))
    serve_endpoint-posts request_buffer method route index (bad_request message) e v =
        inl (refl, elsewhere method route e λ h. ground (arith, v, h))
    serve_endpoint-posts request_buffer method route index method_not_allowed e v =
        inl (refl, elsewhere method route e λ h. ground (arith, v, h))
    serve_endpoint-posts request_buffer method route index unsupported_route e v =
        inl (refl, elsewhere method route e λ h. ground (arith, v, h))

    -- Either a request is one to notify whose body has a chain id, the client is told that it is
    -- accepted, and each configured observer gets the body once; or the observers are told nothing,
    -- and this has one of the reasons: the request is not one to notify, no observer is configured,
    -- the body is empty or has no chain id, or the response could not be written.
    pub handle_request-posts :
        (request_buffer : Text) (index : ℕ)
        → NotifiesAllOrNot request_buffer
            ((handle_request serde client observer config request_buffer index).0)
    unfolding handle_request serve_route
    handle_request-posts request_buffer index = elim (Option-cases (get_route request_buffer)) [
      | inl e ↦ rw (e, serve_route) (inl (refl, no_route e))
      | inr ((method, route), e) ↦
          rw (e, serve_route)
            (serve_endpoint-posts request_buffer method route index
              (validate_observer_endpoint method route) e refl)
    ]
