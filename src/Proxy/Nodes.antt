-- ===== src/Proxy/Nodes.antt =====
-- A connection with any requests, those for the nodes among them.
use liberdus_proxy.Prelude.{ℕ, refl, Option, List, Text, All, Outcome, returned, panicked}
use liberdus_proxy.Config.{Config}
use liberdus_proxy.Http.Peer.{Reply}
use liberdus_proxy.Http.Stream.{Arrival, handle_stream}
use liberdus_proxy.Liberdus.Float.{Floats, FloatLaws}
use liberdus_proxy.Liberdus.State.{Liberdus}
use liberdus_proxy.Liberdus.Send
use liberdus_proxy.Liberdus.Sound.{SignLaws, IsSound}
use liberdus_proxy.Liberdus.Sound.Steps.{PromptRun, here, PromptRun-append, IsSound-PromptRun}
use liberdus_proxy.Liberdus.Sound.Requests.{IsTimelyWorld, EndsRun, EndsRun-handle_request}
use liberdus_proxy.Monitor.{CacheMap}
use liberdus_proxy.Monitor.Routes.{Reachable}
use liberdus_proxy.Proxy.{Proxy, World, Json, handlers, with_nodes, handle_validator}
use liberdus_proxy.Proxy.Connection.{
  IsServed, KeepsAs, ReturnsAs, HandlesAs, ReturnsAs-handle_stream,
}

module _ {F : Type 0} ⦃o : Floats F⦄ where
  -- What the requests meet: draws and answers as above, and other tasks that make the tasks' steps.
  pub record IsTimely (max_timeout : ℕ) (w : World F) : Type 0 where
    pub nodes : (k : ℕ) → IsTimelyWorld max_timeout (w.nodes k)
    pub others : (k : ℕ) (s : Liberdus F) → PromptRun s (w.others k s)
    pub monitor : (c : CacheMap) → Reachable c → Reachable (w.monitor.others c)

  HandlesAs-with_nodes :
      (s₀ s : Proxy F) (r : Outcome (Reply × Liberdus F))
      → EndsRun s.liberdus r
      → KeepsAs (PromptRun s₀.liberdus) s₀.manager s
      → HandlesAs (PromptRun s₀.liberdus) s₀.manager (with_nodes r s)
  HandlesAs-with_nodes s₀ s panicked h kept = absurd h
  HandlesAs-with_nodes s₀ s (returned (reply, liberdus)) h (run, same, reached) =
      (reply.written, _, refl, (PromptRun-append liberdus run h, same, reached))

  module _ (laws : SignLaws o) (float_laws : FloatLaws o) (json : Json) (world : ℕ → World F)
      (config : Config) (writes : ℕ → Option Text) (m : ℕ) (timely : (n : ℕ) → IsTimely m (world n))
      (s₀ : Proxy F) (sound : IsSound o m s₀.liberdus) where
    handles :
        Unit {0}
        → (request : Text) (s : Proxy F) → KeepsAs (PromptRun s₀.liberdus) s₀.manager s
        → HandlesAs
            (PromptRun s₀.liberdus)
            s₀.manager
            (handle_validator json world config request s)
    unfolding handle_validator
    handles allowed request s kept =
        let w = world s.requests in
        HandlesAs-with_nodes s₀ s
          (Send.handle_request w.nodes w.others w.client config request s.liberdus)
          (EndsRun-handle_request laws float_laws m s.liberdus
            (IsSound-PromptRun laws m s₀.liberdus s.liberdus kept.0 sound) w.nodes w.others w.client
            config request (timely s.requests).nodes (timely s.requests).others)
          kept

    -- A connection with any requests is served to its end without a panic, when the buffers without a
    -- route have no character across the preview's end, from a sound node list and caches that the
    -- tasks have made: with the laws of the floats and of the draws, other tasks that make the tasks'
    -- steps and record no trip time above the longest timeout, and nodes that answer within that
    -- timeout or not at all. The node list is then one that such steps reach, the caches are such too,
    -- and the subscriptions as they were. A refresh and a call for a node count as one step each,
    -- which the code does not ensure: a refresh in the middle of a call can make it panic.
    pub Reaches-handle_stream :
        (arrivals : List Arrival)
        → All (IsServed Unit) arrivals
        → Reachable s₀.caches
        → ReturnsAs
            (PromptRun s₀.liberdus)
            s₀.manager
            (handle_stream (handlers json world config) config writes arrivals s₀)
    Reaches-handle_stream arrivals h reached =
        ReturnsAs-handle_stream json world config writes (λ n. (timely n).monitor)
          (PromptRun s₀.liberdus) s₀.manager Unit handles arrivals s₀ h (here, refl, reached)
