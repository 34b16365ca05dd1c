-- ===== src/Config.antt =====
-- The settings of src/config.rs, and how they are read.
pub mod Samples
use liberdus_proxy.Prelude.{ℕ, Bool, List, ◌++◌, Text, codes, Result, ok, err}

pub record StandaloneNetworkConfig : Type 0 where
  pub replacement_ip : Text
  pub enabled : Bool

pub record NodeFilteringConfig : Type 0 where
  pub enabled : Bool
  pub remove_top_nodes : ℕ
  pub remove_bottom_nodes : ℕ
  pub min_nodes_for_filtering : ℕ

pub record ShardusMonitorProxyConfig : Type 0 where
  pub enabled : Bool
  pub upstream_ip : Text
  pub upstream_port : ℕ
  pub https : Bool

pub record LocalSource : Type 0 where
  pub collector_api_ip : Text
  pub collector_api_port : ℕ
  pub collector_event_server_ip : Text
  pub collector_event_server_port : ℕ

pub record NotifierConfig : Type 0 where
  pub ip : Text
  pub port : ℕ

pub record TlsConfig : Type 0 where
  pub enabled : Bool
  pub cert_path : Text
  pub key_path : Text

pub record Config : Type 0 where
  pub http_port : ℕ
  pub crypto_seed : Text
  pub archiver_seed_path : Text
  pub nodelist_refresh_interval_sec : ℕ
  pub debug : Bool
  pub max_http_timeout_ms : ℕ
  pub tcp_keepalive_time_sec : ℕ
  pub standalone_network : StandaloneNetworkConfig
  pub node_filtering : NodeFilteringConfig
  pub tls : TlsConfig
  pub shardus_monitor : ShardusMonitorProxyConfig
  pub local_source : LocalSource
  pub notifier : NotifierConfig
  pub observer_urls : List Text

-- `map_err` with a text before the error's.
unfoldable pub or_say : {A : Type 0} → Text → Result Text A → Result Text A
or_say what (ok a) = ok a
or_say what (err e) = err (what ++ e)

-- `read_to_string` gives a file's text, and `from_str` what serde reads in it.
unfoldable pub load : (Text → Result Text Text) → (Text → Result Text Config) → Result Text Config
unfolding or_say
load read_to_string from_str =
    elim (or_say (codes "Failed to read config file: ")
      (read_to_string (codes "src/config.json"))) [
        | err e ↦ err e
        | ok config_data ↦ or_say (codes "Failed to parse config file: ") (from_str config_data)
      ]
