-- ===== src/Proxy/Served.antt =====
-- A connection whose requests are not for the nodes.
use liberdus_proxy.Prelude.{
  ℕ, false, Option, none, some, List, Text, ◌≡◌, ◌≢◌, refl, All, Outcome, returned,
}
use liberdus_proxy.Config.{Config}
use liberdus_proxy.Http.Route.{validator, get_application, get_route}
use liberdus_proxy.Http.Stream.{
  Arrival, collected, failed, idle, cuts_character, Served, handle_stream,
}
use liberdus_proxy.Liberdus.Float.{Floats}
use liberdus_proxy.Monitor.{CacheMap}
use liberdus_proxy.Monitor.Routes.{Reachable}
use liberdus_proxy.Proxy.Connection.{ReturnsAs-handle_stream}
use liberdus_proxy.Proxy.{Proxy, World, Json, handlers}

-- No request for a node, and no buffer without a route whose log preview would end in a character.
abbrev pub IsOrdinary : Arrival → Type 0
IsOrdinary (collected request) =
    (get_route request ≡ none → cuts_character request ≡ false)
    × ((method route : Text)
        → get_route request ≡ some (method, route)
        → get_application method route ≢ validator)
IsOrdinary (failed e) = Unit
IsOrdinary idle = Unit

module _ {F : Type 0} ⦃o : Floats F⦄ (json : Json) (world : ℕ → World F) (config : Config)
    (writes : ℕ → Option Text)
    (others : (n : ℕ) (c : CacheMap) → Reachable c → Reachable (((world n).monitor).others c))
    (s₀ : Proxy F) where
  -- The node list and the subscriptions are the same, and the caches sound.
  abbrev pub Keeps : Proxy F → Type 0
  Keeps s = (s.liberdus ≡ s₀.liberdus) × (s.manager ≡ s₀.manager) × Reachable s.caches

  abbrev pub Returns : Outcome (Served (Proxy F)) → Type 0
  Returns r = (done : Served (Proxy F)) × (r ≡ returned done) × Keeps done.state

  -- A connection of requests for the observers, the monitor, the collector, the notifier and the
  -- subscriptions, from caches that the tasks have made, is served to its end: no handler panics,
  -- whatever the servers and the client do. The node list and the subscriptions stay as they are.
  pub Returns-handle_stream :
      (arrivals : List Arrival)
      → All IsOrdinary arrivals
      → Reachable s₀.caches
      → Returns (handle_stream (handlers json world config) config writes arrivals s₀)
  Returns-handle_stream arrivals h reached =
      ReturnsAs-handle_stream json world config writes others (λ nodes. nodes ≡ s₀.liberdus)
        s₀.manager ⊥ (λ never. absurd never) arrivals s₀ h (refl, refl, reached)
