-- ===== src/Proxy/Connection.antt =====
-- One connection, over what is kept of the node list.
use liberdus_proxy.Prelude.{
  ℕ, suc, true, false, Option-cases, inl, inr, Option, none, some, List, [], ◌∷◌, ◌++◌, Text, ◌≡◌,
  refl, arith, err, All, Outcome, returned,
}
use liberdus_proxy.Config.{Config}
use liberdus_proxy.Http.Route.{
  Application, validator, collector, notifier, monitor, debug, observer_gateway, get_application,
  get_route, is_monitor_route,
}
use liberdus_proxy.Http.Stream.{
  Arrival, collected, failed, idle, cuts_character, Served, before_rest, go_on, write_own,
  debug_response, answer, routed, handle_each, handle_stream,
}
use liberdus_proxy.Liberdus.Float.{Floats}
use liberdus_proxy.Liberdus.State.{Liberdus}
use liberdus_proxy.Subscription.{Inner}
use liberdus_proxy.Monitor.{CacheMap}
use liberdus_proxy.Monitor.Routes.{Reachable, handle_request-returns}
use liberdus_proxy.Proxy.{
  Proxy, World, Json, handle_observer, handle_monitor, handle_validator, handlers,
}

-- A request for a node only where that is allowed, and no buffer without a route whose log preview
-- would end in a character.
abbrev pub IsServed : Type 0 → Arrival → Type 0
IsServed Allowed (collected request) =
    (get_route request ≡ none → cuts_character request ≡ false)
    × ((method route : Text)
        → get_route request ≡ some (method, route)
        → get_application method route ≡ validator
        → Allowed)
IsServed Allowed (failed e) = Unit
IsServed Allowed idle = Unit

get_application-monitor :
    (method route : Text) → get_application method route ≡ monitor → is_monitor_route route ≡ true
unfolding get_application
get_application-monitor method route h = ground (arith, h)

module _ {F : Type 0} (P : Liberdus F → Type 0) (manager : Inner) where
  -- What is kept of the node list, the subscriptions as they are, and sound caches.
  abbrev pub KeepsAs : Proxy F → Type 0
  KeepsAs s = P s.liberdus × (s.manager ≡ manager) × Reachable s.caches

  abbrev pub ReturnsAs : Outcome (Served (Proxy F)) → Type 0
  ReturnsAs r = (done : Served (Proxy F)) × (r ≡ returned done) × KeepsAs done.state

  abbrev pub HandlesAs : Outcome (List Text × Proxy F) → Type 0
  HandlesAs r = (written : List Text) × (s : Proxy F) × (r ≡ returned (written, s)) × KeepsAs s

module _ {F : Type 0} ⦃o : Floats F⦄ (json : Json) (world : ℕ → World F) (config : Config)
    (writes : ℕ → Option Text)
    (others : (n : ℕ) (c : CacheMap) → Reachable c → Reachable (((world n).monitor).others c))
    (P : Liberdus F → Type 0) (manager : Inner) (Allowed : Type 0)
    (nodes : Allowed
      → (request : Text) (s : Proxy F) → KeepsAs P manager s
      → HandlesAs P manager (handle_validator json world config request s)) where
  Returns-before_rest :
      (written : List Text) (r : Outcome (Served (Proxy F)))
      → ReturnsAs P manager r
      → ReturnsAs P manager (before_rest (handlers json world config) config writes written r)
  Returns-before_rest written r (done, e, kept) =
      rw e (record done { written = written ++ done.written }, refl, kept)

  Returns-go_on :
      (r : Outcome (List Text × Proxy F)) (again : Proxy F → Outcome (Served (Proxy F)))
      → HandlesAs P manager r
      → ((s : Proxy F) → KeepsAs P manager s → ReturnsAs P manager (again s))
      → ReturnsAs P manager (go_on (handlers json world config) config writes r again)
  Returns-go_on r again (written, s, e, kept) goes =
      rw e (Returns-before_rest written (again s) (goes s kept))

  Returns-write_own :
      (e : Option Text) (response : List Text) (s : Proxy F)
      (again : Proxy F → Outcome (Served (Proxy F)))
      → KeepsAs P manager s
      → ((s : Proxy F) → KeepsAs P manager s → ReturnsAs P manager (again s))
      → ReturnsAs P manager
          (write_own (handlers json world config) config writes e response s again)
  Returns-write_own none response s again kept goes =
      Returns-before_rest response (again s) (goes s kept)
  Returns-write_own (some e) response s again kept goes =
      (record { written = []; state = s; result = err e }, refl, kept)

  Handles-monitor :
      (request route : Text) (s : Proxy F)
      → is_monitor_route route ≡ true
      → KeepsAs P manager s
      → HandlesAs P manager (handle_monitor json world config request route s)
  unfolding handle_monitor
  Handles-monitor request route s h (list, same, reached) =
      let w = world s.requests in
      let (reply, after, e, reached') =
        handle_request-returns json.report w.client config w.monitor route s.caches h
          (others s.requests) reached in
      rw e (
        reply.written,
        record s { caches = after; requests = suc s.requests },
        refl,
        (list, same, reached'),
      )

  Returns-answer :
      (n : ℕ) (application : Application) (method route request : Text) (s : Proxy F)
      (again : Proxy F → Outcome (Served (Proxy F)))
      → get_application method route ≡ application
      → (application ≡ validator → Allowed)
      → KeepsAs P manager s
      → ((s : Proxy F) → KeepsAs P manager s → ReturnsAs P manager (again s))
      → ReturnsAs P manager
          (answer (handlers json world config) config writes n application route request s again)
  unfolding answer handle_observer
  Returns-answer n validator method route request s again e h kept goes =
      Returns-go_on _ again (nodes (h refl) request s kept) goes
  Returns-answer n collector method route request s again e h kept goes =
      Returns-go_on _ again (_, _, refl, kept) goes
  Returns-answer n notifier method route request s again e h kept goes =
      Returns-go_on _ again (_, _, refl, kept) goes
  Returns-answer n monitor method route request s again e h kept goes =
      Returns-go_on _ again
        (Handles-monitor request route s (get_application-monitor method route e) kept) goes
  Returns-answer n observer_gateway method route request s again e h kept goes =
      Returns-go_on _ again (_, _, refl, kept) goes
  Returns-answer n debug method route request s again e h kept goes =
      Returns-write_own (writes n) (debug_response (handlers json world config) config writes s) s
        again kept goes

  Returns-handle_each :
      (arrivals : List Arrival) (n : ℕ) (s : Proxy F)
      → All (IsServed Allowed) arrivals
      → KeepsAs P manager s
      → ReturnsAs P manager (handle_each (handlers json world config) config writes arrivals n s)
  unfolding handle_each routed
  Returns-handle_each [] n s h kept = (_, refl, kept)
  Returns-handle_each (collected [] ∷ arrivals) n s h kept = (_, refl, kept)
  Returns-handle_each (failed e ∷ arrivals) n s h kept = (_, refl, kept)
  Returns-handle_each (idle ∷ arrivals) n s h kept = (_, refl, kept)
  Returns-handle_each (collected (b ∷ bs) ∷ arrivals) n s ((uncut, other), h) kept =
      elim (Option-cases (get_route (b ∷ bs))) [
        | inl e ↦ rw (e, uncut e) (_, refl, kept)
        | inr ((method, route), e) ↦ rw e (
            Returns-answer n (get_application method route) method route (b ∷ bs) s
              (λ s'. handle_each (handlers json world config) config writes arrivals (suc n) s')
              refl (other method route e) kept
              (λ s' kept'. Returns-handle_each arrivals (suc n) s' h kept'))
      ]

  pub ReturnsAs-handle_stream :
      (arrivals : List Arrival) (s : Proxy F)
      → All (IsServed Allowed) arrivals
      → KeepsAs P manager s
      → ReturnsAs P manager (handle_stream (handlers json world config) config writes arrivals s)
  unfolding handle_stream
  ReturnsAs-handle_stream arrivals s h kept = Returns-handle_each arrivals 0 s h kept
