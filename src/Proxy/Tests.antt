-- ===== src/Proxy/Tests.antt =====
-- A proxy without nodes, beside servers that do not answer.
mod Nodes
use liberdus_proxy.Prelude.{ℕ, none, false, [], codes, err}
use liberdus_proxy.Config.Samples.{some_config}
use liberdus_proxy.Http.Peer.{connect_timeout, refused}
use liberdus_proxy.Subscription
use liberdus_proxy.Monitor.{init_caches}
use liberdus_proxy.Observer.Forward.{no_response}
use liberdus_proxy.Proxy.{Proxy, World, Json}

abbrev pub no_json : Json
no_json = record {
  serde = record { from_slice = λ t. err (codes "no"); to_vec = λ v. [] };
  report = record { from_slice = λ t. err (codes "no"); to_vec = λ r. [] };
  subscribed_accounts = λ accounts. codes "{}";
}

abbrev pub silent : World ℕ
silent = record {
  client = λ n. none;
  observer = λ url. no_response (codes "refused");
  monitor = record {
    clock = record {
      date_now = 5;
      at_active = λ i. 5;
      at_syncing = λ i. 5;
      at_report = 5;
      at_set = 5;
    };
    upstream = λ request. connect_timeout;
    others = λ caches. caches;
  };
  collector = λ request. refused (codes "refused");
  notifier = λ request. connect_timeout;
  nodes = λ n. record {
    rngs = λ k. record { gen_index = λ m. 0; gen_float = λ t. 0 };
    others = λ k s. s;
    serves = λ node request. connect_timeout;
  };
  others = λ n s. s;
}

abbrev pub first_state : Proxy ℕ
first_state = record {
  liberdus = record {
    active_nodelist = [];
    trip_ms = [];
    list_prepared = false;
    round_robin_index = 0;
    archivers = [];
    load_distribution_commulative_bias = [];
    config = some_config;
    pending = [];
  };
  manager = Subscription.new;
  caches = init_caches;
  observer_index = 0;
  requests = 0;
}
