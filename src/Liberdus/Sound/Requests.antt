-- ===== src/Liberdus/Sound/Requests.antt =====
-- A request for a node is answered, and what it does to the node list are the tasks' steps.
use liberdus_proxy.Prelude.{
  ℕ, zero, suc, ◌≤◌, ◌≡◌, refl, Option, none, some, List, Text, Result, ok, err, Outcome, returned,
  panicked, arith,
}
use liberdus_proxy.Config.{Config}
use liberdus_proxy.Http.Peer.{
  Exchange, refused, connect_timeout, write_failed, write_timeout, sent, Client, Reply,
}
use liberdus_proxy.Http.Collect.{Read, IoError}
use liberdus_proxy.Liberdus.Float.{Floats, FloatLaws, Rng, RngLaws}
use liberdus_proxy.Liberdus.State.{Consensor, Liberdus, set_consensor_trip_ms}
use liberdus_proxy.Liberdus.Select.{
  Choice, or_again, retry_loop, get_next_appropriate_consensor,
  get_next_appropriate_consensor_with_retry,
}
use liberdus_proxy.Liberdus.Send.{
  Sent, Surroundings, finish, forward, send_to, send, settle, attempts, handle_request,
}
use liberdus_proxy.Liberdus.Sound.{SignLaws, IsSound}
use liberdus_proxy.Liberdus.Sound.Laws.{ServesSoundly, ServesSoundly-next}
use liberdus_proxy.Liberdus.Sound.Steps.{
  PromptRun, here, next, chooses, records, PromptRun-append, IsSound-PromptRun,
}

module _ {F : Type 0} ⦃o : Floats F⦄ where
  -- The draws are in their ranges, the other tasks make their steps, and a node that has taken a
  -- request answers within the timeout.
  pub record IsTimelyWorld (max_timeout : ℕ) (w : Surroundings F) : Type 0 where
    pub draws : (k : ℕ) → RngLaws o (w.rngs k)
    pub others : (k : ℕ) (s : Liberdus F) → PromptRun s (w.others k s)
    pub answers :
        (node : Consensor F) (request : Text) (reads : List Read) (elapsed : ℕ)
        → w.serves node request ≡ sent reads elapsed
        → elapsed ≤ max_timeout

  -- No panic, and a state that the tasks' steps reach.
  abbrev pub EndsRun : {A : Type 0} → Liberdus F → Outcome (A × Liberdus F) → Type 0
  EndsRun s panicked = ⊥
  EndsRun s (returned (_, t)) = PromptRun s t

  module _ (laws : SignLaws o) (float_laws : FloatLaws o) (m : ℕ) (s₀ : Liberdus F)
      (sound : IsSound o m s₀) where
    IsSound-after : (s : Liberdus F) → PromptRun s₀ s → IsSound o m s
    IsSound-after s run = IsSound-PromptRun laws m s₀ s run sound

    EndsRun-next :
        (rng : Rng F)
        → RngLaws o rng
        → (s : Liberdus F) → PromptRun s₀ s
        → EndsRun s₀ (get_next_appropriate_consensor rng s)
    EndsRun-next rng draws s run =
        go (get_next_appropriate_consensor rng s) refl
          (ServesSoundly-next laws m float_laws rng draws s (IsSound-after s run))
      where
        go :
            (c : Choice F)
            → get_next_appropriate_consensor rng s ≡ c
            → ServesSoundly m c
            → EndsRun s₀ c
        go panicked e h = absurd h
        go (returned (chosen, t)) e h = next run (chooses rng chosen t e) tt

    EndsRun-or_again :
        (c : Choice F) (again : Liberdus F → Choice F)
        → EndsRun s₀ c
        → ((s : Liberdus F) → PromptRun s₀ s → EndsRun s₀ (again s))
        → EndsRun s₀ (or_again c again)
    unfolding or_again
    EndsRun-or_again panicked again h goes = absurd h
    EndsRun-or_again (returned (none, s)) again v goes = goes s v
    EndsRun-or_again (returned (some chosen, s)) again v goes = v

    EndsRun-retry_loop :
        (w : Surroundings F)
        → IsTimelyWorld m w
        → (left retry : ℕ) (s : Liberdus F) → PromptRun s₀ s
        → EndsRun s₀ (retry_loop w.rngs w.others left retry s)
    unfolding retry_loop
    EndsRun-retry_loop w fair zero retry s v = EndsRun-next (w.rngs retry) (fair.draws retry) s v
    EndsRun-retry_loop w fair (suc left) retry s v =
        EndsRun-or_again _ _ (EndsRun-next (w.rngs retry) (fair.draws retry) s v) λ s' v'.
          EndsRun-retry_loop w fair left (suc retry) (w.others retry s')
            (PromptRun-append (w.others retry s') v' (fair.others retry s'))

    Run-records :
        (id : Text) (t : ℕ) (s : Liberdus F)
        → t ≤ m
        → PromptRun s₀ s
        → PromptRun s₀ (set_consensor_trip_ms id t s)
    Run-records id t s h run =
        next run (records id t) (omega (arith, h, (IsSound-after s run).timeout))

    Run-blame :
        (id : Text) (s : Liberdus F)
        → PromptRun s₀ s
        → PromptRun s₀ (set_consensor_trip_ms id s.config.max_http_timeout_ms s)
    Run-blame id s run = next run (records id s.config.max_http_timeout_ms) (omega arith)

    Run-finish :
        (node : Consensor F) (elapsed : ℕ) (r : Result IoError (Unit {0})) (response : Text)
        (s : Liberdus F)
        → elapsed ≤ m
        → PromptRun s₀ s
        → PromptRun s₀ ((finish node elapsed r response s).1)
    unfolding finish
    Run-finish node elapsed (err e) response s h v = Run-blame node.id s v
    Run-finish node elapsed (ok u) response s h v = Run-records node.id elapsed s h v

    Run-forward :
        (node : Consensor F) (x : Exchange) (s : Liberdus F)
        → ((reads : List Read) (elapsed : ℕ) → x ≡ sent reads elapsed → elapsed ≤ m)
        → PromptRun s₀ s
        → PromptRun s₀ ((forward node x s).1)
    unfolding forward
    Run-forward node (refused e) s h v = Run-blame node.id s v
    Run-forward node connect_timeout s h v = Run-blame node.id s v
    Run-forward node (write_failed e) s h v = Run-blame node.id s v
    Run-forward node write_timeout s h v = Run-blame node.id s v
    Run-forward node (sent reads elapsed) s h v =
        Run-finish node elapsed _ _ s (h reads elapsed refl) v

    EndsRun-send_to :
        (w : Surroundings F) (request : Text) (chosen : Option (ℕ × Consensor F)) (s : Liberdus F)
        → IsTimelyWorld m w
        → PromptRun s₀ s
        → PromptRun s₀ ((send_to w request (chosen, s)).1)
    unfolding send_to
    EndsRun-send_to w request none s fair v = v
    EndsRun-send_to w request (some (i, node)) s fair v =
        Run-forward node (w.serves node request) s (fair.answers node request) v

    EndsRun-send :
        (w : Surroundings F) (request : Text) (s : Liberdus F)
        → IsTimelyWorld m w
        → PromptRun s₀ s
        → EndsRun s₀ (send w request s)
    unfolding send get_next_appropriate_consensor_with_retry
    EndsRun-send w request s fair v =
        go (retry_loop w.rngs w.others 3 0 s) (EndsRun-retry_loop w fair 3 0 s v)
      where
        go :
            (c : Choice F)
            → EndsRun s₀ c
            → EndsRun s₀ (elim c [
              | panicked ↦ panicked
              | returned chosen ↦ returned (send_to w request chosen)
            ])
        go panicked h = absurd h
        go (returned (chosen, s')) v' = EndsRun-send_to w request chosen s' fair v'

    EndsRun-settle :
        (client : Client) (config : Config) (r : Outcome (Sent × Liberdus F))
        (on_error : Text → Liberdus F → Outcome (Reply × Liberdus F))
        → EndsRun s₀ r
        → ((e : Text) (s : Liberdus F) → PromptRun s₀ s → EndsRun s₀ (on_error e s))
        → EndsRun s₀ (settle client config r on_error)
    unfolding settle
    EndsRun-settle client config panicked on_error h goes = absurd h
    EndsRun-settle client config (returned (ok response, s)) on_error v goes = v
    EndsRun-settle client config (returned (err e, s)) on_error v goes = goes e s v

    module _ (world : ℕ → Surroundings F) (others : ℕ → Liberdus F → Liberdus F) (client : Client)
        (config : Config) (request : Text) (fair : (n : ℕ) → IsTimelyWorld m (world n))
        (steps : (n : ℕ) (s : Liberdus F) → PromptRun s (others n s)) where
      EndsRun-attempts :
          (left retry : ℕ) (s : Liberdus F)
          → PromptRun s₀ s
          → EndsRun s₀ (attempts world others client config request left retry s)
      unfolding attempts
      EndsRun-attempts zero retry s v =
          EndsRun-settle client config _ _ (EndsRun-send (world retry) request s (fair retry) v)
            (λ e s' v'. v')
      EndsRun-attempts (suc left) retry s v =
          EndsRun-settle client config _ _ (EndsRun-send (world retry) request s (fair retry) v)
            λ e s' v'.
              EndsRun-attempts left (suc retry) (others retry s')
                (PromptRun-append (others retry s') v' (steps retry s'))

      -- From a sound state, with draws in their ranges, other tasks that make the tasks' steps, and
      -- nodes that answer within the timeout or not at all, a request for a node does not panic, and
      -- ends in a state that the tasks' steps reach.
      pub EndsRun-handle_request : EndsRun s₀ (handle_request world others client config request s₀)
      unfolding handle_request
      EndsRun-handle_request = EndsRun-attempts 2 0 s₀ here
