-- ===== src/Proxy.antt =====
-- The applications together: the handlers that `handle_stream` of src/http.rs calls, on the state
-- that they share.
pub mod Connection
pub mod Served
pub mod Nodes
mod Tests
use liberdus_proxy.Prelude.{ℕ, suc, List, Text, Outcome, returned, panicked, Option}
use liberdus_proxy.Config.{Config}
use liberdus_proxy.Json.{Serde}
use liberdus_proxy.Http.Peer.{Exchange, Client, Reply}
use liberdus_proxy.Http.Stream.{Handlers}
use liberdus_proxy.Liberdus.Float.{Floats}
use liberdus_proxy.Liberdus.State.{Liberdus}
use liberdus_proxy.Liberdus.Send.{Surroundings}
use liberdus_proxy.Liberdus.Send
use liberdus_proxy.Subscription.{Inner, UserAccountAddress, get_all_subscriptions}
use liberdus_proxy.Monitor.{ReportText, CacheMap}
use liberdus_proxy.Monitor
use liberdus_proxy.Observer.Forward.{Observed}
use liberdus_proxy.Observer
use liberdus_proxy.Collector
use liberdus_proxy.Notifier

-- `OBSERVER_RR_INDEX` and `CACHE_MAP` are static; `requests` counts the requests, by which the world
-- is found that each of them meets.
pub record Proxy (F : Type 0) : Type 0 where
  pub liberdus : Liberdus F
  pub manager : Inner
  pub caches : CacheMap
  pub observer_index : ℕ
  pub requests : ℕ

-- What one request meets: the client, the other servers, and the other tasks' work.
pub record World (F : Type 0) : Type 0 where
  pub client : Client
  pub observer : Text → Observed
  pub monitor : Monitor.Surroundings
  pub collector : Text → Exchange
  pub notifier : Text → Exchange
  pub nodes : ℕ → Surroundings F
  pub others : ℕ → Liberdus F → Liberdus F

-- JSON, as the handlers read and print it.
pub record Json : Type 0 where
  pub serde : Serde
  pub report : ReportText
  pub subscribed_accounts : List UserAccountAddress → Text

module _ {F : Type 0} where
  abbrev pub served : Text → Proxy F → Proxy F
  served request s = record s { requests = suc s.requests }

  abbrev pub with_caches : Outcome (Reply × CacheMap) → Proxy F → Outcome (List Text × Proxy F)
  with_caches panicked s = panicked
  with_caches (returned (reply, caches)) s =
      returned (reply.written, record s { caches = caches; requests = suc s.requests })

  abbrev pub with_nodes : Outcome (Reply × Liberdus F) → Proxy F → Outcome (List Text × Proxy F)
  with_nodes panicked s = panicked
  with_nodes (returned (reply, liberdus)) s =
      returned (reply.written, record s { liberdus = liberdus; requests = suc s.requests })

module _ {F : Type 0} ⦃o : Floats F⦄ (json : Json) (world : ℕ → World F) (config : Config) where
  unfoldable pub handle_observer : Text → Proxy F → Outcome (List Text × Proxy F)
  handle_observer request s =
      let w = world s.requests in
      let done =
        Observer.handle_request json.serde w.client w.observer config request s.observer_index in
      returned
        (((done.0).reply).written, record s { observer_index = done.1; requests = suc s.requests })

  unfoldable pub handle_monitor : Text → Text → Proxy F → Outcome (List Text × Proxy F)
  handle_monitor request route s =
      let w = world s.requests in
      with_caches (Monitor.handle_request json.report w.client config w.monitor route s.caches) s

  unfoldable pub handle_validator : Text → Proxy F → Outcome (List Text × Proxy F)
  handle_validator request s =
      let w = world s.requests in
      with_nodes (Send.handle_request w.nodes w.others w.client config request s.liberdus) s

  abbrev pub handlers : Handlers (Proxy F)
  handlers = record {
    handle_observer = handle_observer;
    handle_monitor = handle_monitor;
    handle_collector = λ request s.
        let w = world s.requests in
        returned (
          (Collector.handle_request w.collector w.client config request).written,
          served request s,
        );
    handle_notifier = λ request s.
        let w = world s.requests in
        returned
          ((Notifier.handle_request w.notifier w.client config request).written, served request s);
    handle_validator = handle_validator;
    subscriptions = λ s. json.subscribed_accounts (get_all_subscriptions s.manager);
  }
