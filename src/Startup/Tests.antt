-- ===== src/Startup/Tests.antt =====
-- A start with one archiver, which knows one node, and a refresh that dies later.
use mathlib.Core.Path.{subst}
use liberdus_proxy.Prelude.{
  ℕ, ◌<◌, ◌≡◌, refl, arith, true, false, none, some, List, [], ◌∷◌, Option, Text, codes, Result, ok,
  err,
}
use liberdus_proxy.Config.{Config, load, or_say}
use liberdus_proxy.Config.Samples.{some_config}
use liberdus_proxy.Crypto.Samples.{toy}
use liberdus_proxy.Crypto
use liberdus_proxy.Tls.{Rustls}
use liberdus_proxy.Archivers.{
  discover, known_archivers, received, sort_by_key, dedup_by_key, replace_archiver_ips,
}
use liberdus_proxy.Archivers
use liberdus_proxy.Liberdus.State.{
  Archiver, Consensor, Fetch, node_list, unreadable, Liberdus, install, filter_nodes, replace_ips,
  update_active_nodelist, set_consensor_trip_ms,
}
use liberdus_proxy.Liberdus.State
use liberdus_proxy.Liberdus.Sound.Samples.{whole, SignLaws-whole, one_node}
use liberdus_proxy.Startup.{
  Files, System, booted, boot, or_exit, or_die, run, tls_acceptor, start, discover_shared, refresh,
  listens, serves, Ticks, idle, ticks,
}
use liberdus_proxy.Liberdus.Sound.Steps.{records}
use liberdus_proxy.Startup.Coherent.{IsCoherent, IsCoherent-boot}
use liberdus_proxy.Startup.Frozen.{HasNodes, Ticks-HasNodes}

abbrev archiver : Archiver
archiver = record { public_key = codes "aa"; port = 4000; ip = codes "10.0.0.1" }

abbrev some_files : Files
some_files = record {
  read_to_string = λ path. ok [];
  config_from_str = λ text. ok some_config;
  archivers_from_str = λ text. ok (archiver ∷ []);
  is_removed = true;
  cache = [];
}

abbrev no_rustls : Rustls Text Text
no_rustls = record {
  open_file = λ path. err (codes "none");
  certs = λ r. (ok [], r);
  pkcs8_private_keys = λ r. (ok [], r);
  rsa_private_keys = λ r. (ok [], r);
  with_single_cert = λ certs key. err (codes "none");
}

abbrev answers : List Archiver → List (Option (List Archiver))
answers asked = some (archiver ∷ []) ∷ []

abbrev fetch : Archiver → Fetch ℕ
fetch a = node_list one_node

abbrev first_system : System ℕ Text
first_system = record {
  config = some_config;
  acceptor = none;
  crypto = record { hash_key = [] };
  util = record {
    seed_list = archiver ∷ [];
    active_archivers = archiver ∷ [];
    cache = archiver ∷ [];
    config = some_config;
  };
  liberdus = record {
    active_nodelist = one_node;
    trip_ms = [];
    archivers = archiver ∷ [];
    round_robin_index = 0;
    list_prepared = false;
    load_distribution_commulative_bias = [];
    pending = [];
    config = some_config;
  };
  is_refreshing = true;
  is_listening = false;
}

boot-first_system : boot some_files no_rustls toy answers fetch ≡ booted first_system
unfolding boot load or_say or_exit or_die run tls_acceptor start discover_shared refresh Crypto.new
    Archivers.new State.new discover known_archivers received sort_by_key dedup_by_key
    replace_archiver_ips install filter_nodes replace_ips update_active_nodelist
boot-first_system = refl

ok-injective : (a b : Config) → ◌≡◌ {A = Result Text Config} (ok a) (ok b) → a ≡ b
ok-injective a b e = cc

timeout_pos :
    (config : Config)
    → load some_files.read_to_string some_files.config_from_str ≡ ok config
    → 0 < config.max_http_timeout_ms
unfolding load or_say
timeout_pos config e =
    subst (λ (c : Config). 0 < c.max_http_timeout_ms) (ok-injective some_config config e)
      (omega arith)

-- The servers listen.
listening : Ticks first_system (record first_system { is_listening = true })
listening = ticks idle (listens (omega arith))

IsCoherent-boot_example : IsCoherent whole (record first_system { is_listening = true })
unfolding listening
IsCoherent-boot_example =
    IsCoherent-boot SignLaws-whole some_files no_rustls toy answers fetch first_system
      (record first_system { is_listening = true }) boot-first_system timeout_pos listening (tt, tt)

abbrev dead_system : System ℕ Text
dead_system = record first_system { is_refreshing = false }

-- A request has taken longer than the timeout.
abbrev slow_system : System ℕ Text
slow_system = record dead_system {
  is_listening = true;
  liberdus = record first_system.liberdus { pending = (codes "a", 5000) ∷ [] };
}

Ticks-HasNodes_example : HasNodes one_node slow_system.liberdus
unfolding set_consensor_trip_ms
Ticks-HasNodes_example =
    Ticks-HasNodes dead_system slow_system refl
      (ticks (ticks idle (listens (omega arith))) (serves _ (records (codes "a") 5000) refl tt))
