-- ===== src/Monitor.antt =====
-- src/shardus_monitor: the monitor's pages and reports, fetched from one server and kept for a while.
mod Tests
pub mod Fresh
pub mod Routes
use liberdus_proxy.Prelude.{
  ℕ, String, suc, ◌+◌, ◌-◌, ◌*◌, ◌/◌, ◌%◌, ◌^◌, ltb, length, Bool, Option, none, some, List, [],
  ◌∷◌, ◌++◌, Text, codes, text_beq, text_eq, if◌then◌else◌, Result, ok, err, Outcome, returned,
  panicked,
}
use liberdus_proxy.Prelude.HashMap.{HashMap, get, insert}
use liberdus_proxy.Str.Decimal.{decimal}
use liberdus_proxy.Json.{Value}
use liberdus_proxy.Config.{Config}
use liberdus_proxy.Http.Header.{crlf, blank_line, set_http_header, split_head_body, join_head_body}
use liberdus_proxy.Http.Respond.{gateway_timeout, internal_error}
use liberdus_proxy.Http.Collect.{IoError, collect_http}
use liberdus_proxy.Http.Peer.{
  Exchange, refused, connect_timeout, write_failed, write_timeout, sent, error_text, Client, Reply,
  reply_with,
}
use liberdus_proxy.Liberdus.Send.{relay}

pub record SyncReport : Type 0 where
  pub timestamp : ℕ
  pub extra : Value

pub record ActiveReport : Type 0 where
  pub report_interval : ℕ
  pub timestamp : ℕ
  pub extra : Value

pub record NodeList : Type 0 where
  pub syncing : HashMap Text SyncReport
  pub active : HashMap Text ActiveReport
  pub unknown : Value

pub record Report : Type 0 where
  pub nodes : NodeList
  pub timestamp : ℕ
  pub unkown : Value

-- Reading and printing a report, as `serde` derives them.
pub record ReportText : Type 0 where
  pub from_slice : Text → Result Text Report
  pub to_vec : Report → Text

pub record PayloadCache : Type 0 where
  pub buffer : Option Text
  pub timestamp : ℕ
  pub lifespan : ℕ

unfoldable pub new : ℕ → PayloadCache
new lifespan = record { buffer = none; timestamp = 0; lifespan = lifespan }

-- At the time `now` in ms.
unfoldable pub set : Text → ℕ → PayloadCache → PayloadCache
set payload now cache = record cache { buffer = some payload; timestamp = now }

abbrev pub CacheMap : Type 0
CacheMap = HashMap Text PayloadCache

abbrev one_minute : ℕ
one_minute = 60000

add_cache : String → ℕ → CacheMap → CacheMap
add_cache route lifespan map = insert (codes route) (new lifespan) map

unfoldable pub init_caches : CacheMap
unfolding add_cache
init_caches = add_cache "/" (one_minute * 30) (
    add_cache "/logo.png" (one_minute * 30) (
      add_cache "/milky-way2.png" (one_minute * 30) (
        add_cache "/api/version" (one_minute * 2) (
          add_cache "/api/status" (one_minute / 2) (
            add_cache "/api/report" (one_minute / 2) (
              add_cache "/popmotion.min.js" (one_minute * 30) (
                add_cache "/axios.min.js" (one_minute * 30) (
                  add_cache "/favicon.ico" (one_minute * 30) (
                    add_cache "/auth.js" (one_minute * 30) (
                      add_cache "/fabric.js" (one_minute * 30) (
                        add_cache "/version.js" (one_minute * 30) (
                          add_cache "/app.js" (one_minute * 30)
                            (add_cache "/style.css" (one_minute * 30) [])))))))))))))

-- `date_now - payload.timestamp` wraps where overflow is not checked, as in a release build.
unfoldable pub is_expired : ℕ → PayloadCache → Bool
is_expired date_now payload =
    ltb payload.lifespan ((date_now + 2 ^ 128 - payload.timestamp) % 2 ^ 128)

-- The clock's readings of one request, in ms, by the place that takes them.
pub record Clock : Type 0 where
  pub date_now : ℕ
  pub at_active : ℕ → ℕ
  pub at_syncing : ℕ → ℕ
  pub at_report : ℕ
  pub at_set : ℕ

-- What one request meets: the clock, the monitor's server, and the other requests' writes to the
-- caches while this one fetches.
pub record Surroundings : Type 0 where
  pub clock : Clock
  pub upstream : Text → Exchange
  pub others : CacheMap → CacheMap

stamp_active : ℕ → (ℕ → ℕ) → ℕ → HashMap Text ActiveReport → HashMap Text ActiveReport
stamp_active lifespan now i [] = []
stamp_active lifespan now i ((id, node) ∷ rest) =
    (id, record node { timestamp = now i; report_interval = lifespan })
    ∷ stamp_active lifespan now (suc i) rest

stamp_syncing : (ℕ → ℕ) → ℕ → HashMap Text SyncReport → HashMap Text SyncReport
stamp_syncing now i [] = []
stamp_syncing now i ((id, node) ∷ rest) =
    (id, record node { timestamp = now i }) ∷ stamp_syncing now (suc i) rest

unfoldable pub stamp_report : ℕ → Clock → Report → Report
unfolding stamp_active stamp_syncing
stamp_report lifespan clock report = record report {
  nodes = record report.nodes {
    active = stamp_active lifespan clock.at_active 0 report.nodes.active;
    syncing = stamp_syncing clock.at_syncing 0 report.nodes.syncing;
  };
  timestamp = clock.at_report;
}

unfoldable pub emulated_request : Config → Text → Text
emulated_request config route =
    codes "GET "
    ++ route
    ++ codes " HTTP/1.1"
    ++ crlf
    ++ codes "Host: "
    ++ config.shardus_monitor.upstream_ip
    ++ codes ":"
    ++ decimal config.shardus_monitor.upstream_port
    ++ blank_line

-- The response, or what the client is told.
abbrev pub Fetched : Type 0
Fetched = Result Reply Text

fetched : Client → Result IoError (Unit {0}) → Text → Fetched
fetched client (ok u) buffer = ok buffer
fetched client (err e) buffer = err (reply_with client internal_error (error_text e))

unfoldable pub cold_fetch : Client → Exchange → Fetched
unfolding fetched
cold_fetch client (refused e) = err (reply_with client gateway_timeout e)
cold_fetch client connect_timeout =
    err (reply_with client gateway_timeout (codes "Timeout connecting to target server"))
cold_fetch client (write_failed e) = err (reply_with client internal_error e)
cold_fetch client write_timeout =
    err (reply_with client gateway_timeout (codes "Timeout forwarding request to server"))
cold_fetch client (sent reads elapsed) =
    let collected = collect_http reads in fetched client collected.result collected.buffer

module _ (text : ReportText) (client : Client) (config : Config) where
  print_stamped : ℕ → Clock → Text → Result Text Report → Fetched
  print_stamped lifespan clock head (err e) = err (reply_with client internal_error e)
  print_stamped lifespan clock head (ok report) =
      let body = text.to_vec (stamp_report lifespan clock report) in
      ok (
        join_head_body (set_http_header head (codes "Content-Length") (decimal (length body))) body)

  refresh_report : Text → ℕ → Clock → Fetched → Fetched
  refresh_report route lifespan clock (err reply) = err reply
  refresh_report route lifespan clock (ok buffer) =
      if text_beq route (codes "/api/report")
      then print_stamped lifespan clock ((split_head_body buffer).0)
          (text.from_slice ((split_head_body buffer).1))
      else ok buffer

  -- The response that is kept and sent.
  unfoldable pub fetch : Surroundings → Text → ℕ → Fetched
  unfolding print_stamped refresh_report
  fetch w route lifespan =
      refresh_report route lifespan w.clock
        (cold_fetch client (w.upstream (emulated_request config route)))

  unfoldable pub serve : Text → Reply
  serve [] = reply_with client internal_error (codes "Empty response from server")
  serve (b ∷ bs) = relay client config (b ∷ bs)

  keep : ℕ → Text → Text → CacheMap → Option PayloadCache → Outcome (Reply × CacheMap)
  keep now route response_data caches none = panicked
  keep now route response_data caches (some cache) =
      returned (serve response_data, insert route (set response_data now cache) caches)

  on_fetched : Surroundings → Text → CacheMap → Fetched → Outcome (Reply × CacheMap)
  on_fetched w route caches (err reply) = returned (reply, w.others caches)
  on_fetched w route caches (ok response_data) =
      keep w.clock.at_set route response_data (w.others caches) (get route (w.others caches))

  on_payload : Surroundings → Text → CacheMap → ℕ → Option Text → Bool → Outcome (Reply × CacheMap)
  on_payload w route caches lifespan none expired =
      on_fetched w route caches (fetch w route lifespan)
  on_payload w route caches lifespan (some payload) expired =
      if expired
      then on_fetched w route caches (fetch w route lifespan)
      else returned (serve payload, caches)

  look_up : Surroundings → Text → CacheMap → Option PayloadCache → Outcome (Reply × CacheMap)
  look_up w route caches none = panicked
  look_up w route caches (some cache) =
      on_payload w route caches cache.lifespan cache.buffer (is_expired w.clock.date_now cache)

  unfoldable pub handle_request : Surroundings → Text → CacheMap → Outcome (Reply × CacheMap)
  unfolding keep on_fetched on_payload look_up
  handle_request w route caches = look_up w route caches (get route caches)
