-- ===== src/Monitor/Tests.antt =====
-- The theorems on the monitor at two requests for its status.
use liberdus_proxy.Prelude.{text_eq, ℕ, ◌≡◌, refl, none, [], ◌++◌, Text, codes, err, returned}
use liberdus_proxy.Config.Samples.{some_config}
use liberdus_proxy.Http.Header.{blank_line}
use liberdus_proxy.Http.Peer.{Exchange, connect_timeout, Reply}
use liberdus_proxy.Http.Route.{is_monitor_route}
use liberdus_proxy.Monitor.{ReportText, Surroundings, CacheMap, init_caches, handle_request}
use liberdus_proxy.Monitor.Routes.{Reachable, start, handle_request-returns}

abbrev no_report : ReportText
no_report = record { from_slice = λ text. err (codes "no report"); to_vec = λ report. [] }

abbrev at_time : ℕ → Exchange → Surroundings
at_time now exchange = record {
  clock = record {
    date_now = now;
    at_active = λ i. now;
    at_syncing = λ i. now;
    at_report = now;
    at_set = now;
  };
  upstream = λ request. exchange;
  others = λ caches. caches;
}

abbrev status : Text
status = codes "/api/status"

abbrev page : Text
page = codes "HTTP/1.1 200 OK" ++ blank_line

handle_request-returns_example :
    (reply : Reply) × (after : CacheMap) × (handle_request no_report
        (λ n. none)
        some_config
        (at_time 100000 connect_timeout)
        status
        init_caches
      ≡ returned (reply, after))
    × Reachable after
unfolding is_monitor_route
handle_request-returns_example =
    handle_request-returns no_report (λ n. none) some_config (at_time 100000 connect_timeout) status
      init_caches refl (λ c reached. reached) start
