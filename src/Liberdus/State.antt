-- ===== src/Liberdus/State.antt =====
-- The shared state of src/liberdus.rs and the writes to it that need no arithmetic.
pub mod Filter
pub mod Update
use liberdus_proxy.Prelude.{
  ℕ, ◌-◌, Bool, true, false, ◌&&◌, Option, none, some, List, [], ◌∷◌, map, Text, text_eq, length,
  take, drop, ltb, if◌then◌else◌, Outcome, returned, panicked,
}
use liberdus_proxy.Prelude.HashMap
use liberdus_proxy.Prelude.HashMap.{HashMap}
use liberdus_proxy.Config.{Config, NodeFilteringConfig}

-- `rng_bias` is an `f64`.
pub record Consensor (F : Type 0) : Type 0 where
  pub id : Text
  pub ip : Text
  pub port : ℕ
  pub public_key : Text
  pub foundation_node : Option Bool
  pub rng_bias : Option F

-- src/archivers.rs
pub record Archiver : Type 0 where
  pub public_key : Text
  pub port : ℕ
  pub ip : Text

-- `pending` holds the inserts that `set_consensor_trip_ms` has spawned and that have not run.
pub record Liberdus (F : Type 0) : Type 0 where
  pub active_nodelist : List (Consensor F)
  pub trip_ms : HashMap Text ℕ
  pub archivers : List Archiver
  pub round_robin_index : ℕ
  pub list_prepared : Bool
  pub load_distribution_commulative_bias : List F
  pub pending : List (Text × ℕ)
  pub config : Config

-- What the request for an archiver's list comes to: a list, an error at any point, or a body that
-- cannot be read, on which the code unwraps.
pub data Fetch (F : Type 0) : Type 0 where
  node_list : List (Consensor F) → Fetch F
  failed : Fetch F
  unreadable : Fetch F

module _ {F : Type 0} where
  unfoldable pub new : List Archiver → Config → Liberdus F
  new archivers config = record {
    active_nodelist = [];
    trip_ms = [];
    archivers = archivers;
    round_robin_index = 0;
    list_prepared = false;
    load_distribution_commulative_bias = [];
    pending = [];
    config = config;
  }

  -- `truncate`, then `drain(0..remove_top)`
  unfoldable pub remove_ends : NodeFilteringConfig → List (Consensor F) → List (Consensor F)
  remove_ends c nodes =
      let kept = take (length nodes - c.remove_bottom_nodes) nodes in
      if ltb 0 c.remove_top_nodes && ltb c.remove_top_nodes (length kept)
      then drop c.remove_top_nodes kept
      else kept

  unfoldable pub filter_nodes : NodeFilteringConfig → List (Consensor F) → List (Consensor F)
  unfolding remove_ends
  filter_nodes c nodes =
      if c.enabled && ltb c.min_nodes_for_filtering (length nodes)
      then remove_ends c nodes
      else nodes

  unfoldable pub set_ip : Text → Consensor F → Consensor F
  set_ip ip node = record node { ip = ip }

  unfoldable pub replace_ips : Config → List (Consensor F) → List (Consensor F)
  replace_ips c nodes =
      if c.standalone_network.enabled
      then map (set_ip c.standalone_network.replacement_ip) nodes
      else nodes

  -- The five stores of a new list, each under its own lock.
  abbrev pub store_nodes : List (Consensor F) → Liberdus F → Liberdus F
  store_nodes nodes s = record s { active_nodelist = nodes }

  abbrev pub clear_weights : Liberdus F → Liberdus F
  clear_weights s = record s { load_distribution_commulative_bias = [] }

  abbrev pub clear_trips : Liberdus F → Liberdus F
  clear_trips s = record s { trip_ms = [] }

  abbrev pub reset_index : Liberdus F → Liberdus F
  reset_index s = record s { round_robin_index = 0 }

  abbrev pub unprepare : Liberdus F → Liberdus F
  unprepare s = record s { list_prepared = false }

  -- All five, where no other task runs between them.
  unfoldable pub install : List (Consensor F) → Liberdus F → Liberdus F
  install nodes s = unprepare (
      reset_index (
        clear_trips (
          clear_weights
            (store_nodes (filter_nodes s.config.node_filtering (replace_ips s.config nodes)) s))))

  -- The loop over the archivers: the first list that arrives ends it.
  unfoldable pub update_from :
      (Archiver → Fetch F) → List Archiver → Liberdus F → Outcome (Liberdus F)
  update_from fetch [] s = returned s
  update_from fetch (archiver ∷ archivers) s = elim (fetch archiver) [
    | node_list nodes ↦ returned (install nodes s)
    | failed ↦ update_from fetch archivers s
    | unreadable ↦ panicked
  ]

  unfoldable pub update_active_nodelist : (Archiver → Fetch F) → Liberdus F → Outcome (Liberdus F)
  unfolding update_from
  update_active_nodelist fetch s = update_from fetch s.archivers s

  -- The insert is spawned; it runs later, as `run_pending`.
  unfoldable pub set_consensor_trip_ms : Text → ℕ → Liberdus F → Liberdus F
  set_consensor_trip_ms node_id trip_ms s =
      if s.list_prepared then s else record s { pending = (node_id, trip_ms) ∷ s.pending }

  -- One spawned insert runs; the rest stays pending.
  unfoldable pub run_pending : Text × ℕ → List (Text × ℕ) → Liberdus F → Liberdus F
  run_pending (node_id, trip_ms) rest s = record s {
    trip_ms = HashMap.insert node_id trip_ms s.trip_ms;
    pending = rest;
  }
