-- ===== src/Liberdus/Tests/Torn.antt =====
-- A refresh whose stores come between those of `prepare_list`: a later call for a node panics.
use liberdus_proxy.Prelude.{ℕ, List, [], ◌∷◌, Text, ◌≡◌, refl, false, none, codes, panicked}
use liberdus_proxy.Prelude.HashMap
use liberdus_proxy.Config.Samples.{some_config}
use liberdus_proxy.Liberdus.State.{
  Consensor, Liberdus, store_nodes, install, filter_nodes, replace_ips,
}
use liberdus_proxy.Liberdus.Prepare.{
  prepare_list, sorted_nodes, store_weights, set_prepared, trip_of, sort_by, set_bias,
  calculate_bias, accumulate,
}
use liberdus_proxy.Liberdus.Search.{binary_search_by}
use liberdus_proxy.Liberdus.Select.{
  get_next_appropriate_consensor, get_random_consensor_biased, pick, advance_index, round_robin,
}
use liberdus_proxy.Liberdus.Sound.Samples.{whole, one_node}

abbrev node : Text → Consensor ℕ
node id = record {
  id = id;
  ip = codes "10.0.0.2";
  port = 9001;
  public_key = [];
  foundation_node = none;
  rng_bias = none;
}

abbrev three_nodes : List (Consensor ℕ)
three_nodes = node (codes "b") ∷ node (codes "c") ∷ one_node

-- All nodes have answered, and the next call prepares.
abbrev measured : Liberdus ℕ
measured = record {
  active_nodelist = three_nodes;
  trip_ms = (codes "a", 20) ∷ (codes "b", 30) ∷ (codes "c", 40) ∷ [];
  archivers = [];
  round_robin_index = 3;
  list_prepared = false;
  load_distribution_commulative_bias = [];
  pending = [];
  config = some_config;
}

-- The nodes are stored; a refresh brings one node; the weights of the three are stored.
abbrev torn : Liberdus ℕ
torn = set_prepared (
    store_weights (accumulate 0 (sorted_nodes measured))
      (install one_node (store_nodes (sorted_nodes measured) measured)))

-- The draw is 2, below the total of 3; the call before it has been for the one node.
torn-panics :
    get_next_appropriate_consensor
      (record { gen_index = λ n. 0; gen_float = λ total. 2 })
      (record torn { round_robin_index = 1 })
    ≡ panicked
unfolding get_next_appropriate_consensor round_robin get_random_consensor_biased pick advance_index
    prepare_list install filter_nodes replace_ips trip_of sort_by set_bias calculate_bias accumulate
    binary_search_by HashMap.get
torn-panics = refl
