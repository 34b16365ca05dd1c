-- ===== src/Config/Samples.antt =====
-- Settings for the tests.
use liberdus_proxy.Prelude.{true, false, []}
use liberdus_proxy.Config.{Config, NodeFilteringConfig}

abbrev pub one_off : NodeFilteringConfig
one_off = record {
  enabled = true;
  remove_top_nodes = 1;
  remove_bottom_nodes = 1;
  min_nodes_for_filtering = 2;
}

abbrev pub some_config : Config
some_config = record {
  http_port = 3030;
  crypto_seed = [];
  archiver_seed_path = [];
  nodelist_refresh_interval_sec = 30;
  debug = false;
  max_http_timeout_ms = 100;
  tcp_keepalive_time_sec = 15;
  standalone_network = record { replacement_ip = []; enabled = false };
  node_filtering = one_off;
  tls = record { enabled = false; cert_path = []; key_path = [] };
  shardus_monitor = record { enabled = false; upstream_ip = []; upstream_port = 0; https = false };
  local_source = record {
    collector_api_ip = [];
    collector_api_port = 0;
    collector_event_server_ip = [];
    collector_event_server_port = 0;
  };
  notifier = record { ip = []; port = 0 };
  observer_urls = [];
}
