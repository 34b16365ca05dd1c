-- ===== src/Liberdus/Tests.antt =====
-- The theorems on the node list, with signed integers, as differences of naturals, for the floats.
pub mod Choices
mod Torn
use liberdus_proxy.Prelude.{
  ℕ, zero, suc, ◌+◌, ◌/◌, ◌-◌, ◌<◌, ◌≤◌, ◌≡◌, ◌↔◌, refl, Bool, true, false, ◌&&◌, Option, none,
  some, List, [], ◌∷◌, ◌++◌, map, take, drop, arith, Text, codes, length, ltb, leb, if◌then◌else◌,
  Ordering, ok, err, ◌⊎◌, inl, inr, Outcome, returned, panicked, Bool-cases,
}
use liberdus_proxy.Config.Samples.{one_off, some_config}
use liberdus_proxy.Liberdus.Float.{Floats, FloatLaws, Rng, RngLaws}
use liberdus_proxy.Liberdus.State.{
  Consensor, Archiver, Liberdus, Fetch, node_list, failed, filter_nodes, update_active_nodelist,
}
use liberdus_proxy.Liberdus.State.Filter.{
  IsWindow, IsWindow-filter_nodes, length-filter_nodes, filter_nodes-eq-nil_iff,
}
use liberdus_proxy.Liberdus.State.Update.{AllFailed, FirstDecides, update_active_nodelist-decides}
use liberdus_proxy.Liberdus.Search.{binary_search_by, compare_at}
use liberdus_proxy.Liberdus.Search.Laws.{IsPartitioned, at, Locates, Locates-binary_search_by}

abbrev cmp : ℕ → ℕ → Ordering
cmp a b = if ltb a b then Ordering.lt else if ltb b a then Ordering.gt else Ordering.eq

-- a - b as the pair of a and b; division is that of naturals.
instance abbrev pub integers : Floats (ℕ × ℕ)
integers = record {
  float_zero = (0, 0);
  float_one = (1, 0);
  add = λ x y. (x.0 + y.0, x.1 + y.1);
  sub = λ x y. (x.0 + y.1, x.1 + y.0);
  div = λ x y. ((x.0 - x.1) / (y.0 - y.1), 0);
  of_nat = λ n. (n, 0);
  partial_cmp = λ x y. some (cmp (x.0 + y.1) (y.0 + x.1));
}

pub cmp_swap_integers : FloatLaws integers
cmp_swap_integers = record { cmp_swap = λ a b h. ground arith }

-- The draws of the lowest values.
abbrev pub lowest : Rng (ℕ × ℕ)
lowest = record { gen_index = λ n. 0; gen_float = λ t. (0, 0) }

pub RngLaws-lowest : RngLaws integers lowest
RngLaws-lowest = record { gen_index-lt = λ n h. h; gen_float-lt = λ t h. h }

abbrev pub node : Text → ℕ → Consensor (ℕ × ℕ)
node id port = record {
  id = id;
  ip = codes "127.0.0.1";
  port = port;
  public_key = [];
  foundation_node = none;
  rng_bias = none;
}

abbrev pub three_nodes : List (Consensor (ℕ × ℕ))
three_nodes = node (codes "a") 1 ∷ node (codes "b") 2 ∷ node (codes "c") 3 ∷ []

abbrev pub archiver : Archiver
archiver = record { public_key = codes "k"; port = 4000; ip = codes "127.0.0.1" }

abbrev pub fresh_list : Liberdus (ℕ × ℕ)
fresh_list = record {
  active_nodelist = three_nodes;
  trip_ms = (codes "b", 20) ∷ [];
  archivers = archiver ∷ [];
  round_robin_index = 0;
  list_prepared = false;
  load_distribution_commulative_bias = [];
  pending = [];
  config = some_config;
}

-- Prepared, with a weight below 0 at the end.
abbrev pub negative_list : Liberdus (ℕ × ℕ)
negative_list = record fresh_list {
  list_prepared = true;
  load_distribution_commulative_bias = (3, 0) ∷ (5, 0) ∷ (0, 1) ∷ [];
}

abbrev answer : Archiver → Fetch (ℕ × ℕ)
answer a = node_list three_nodes

length-filter_nodes_example : length (filter_nodes one_off three_nodes) ≡ (
    if true && ltb 2 (length three_nodes)
    then (if ltb 1 (length three_nodes - 1)
        then length three_nodes - 1 - 1
        else length three_nodes - 1)
    else length three_nodes)
length-filter_nodes_example = length-filter_nodes one_off three_nodes

filter_nodes-eq-nil_iff_example : (length (filter_nodes one_off three_nodes) ≡ 0) ↔ (
    (length three_nodes ≡ 0)
    ⊎ ((true ≡ true) × (2 < length three_nodes) × (length three_nodes ≤ 1)))
filter_nodes-eq-nil_iff_example = filter_nodes-eq-nil_iff one_off three_nodes
