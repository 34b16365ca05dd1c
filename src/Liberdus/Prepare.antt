-- ===== src/Liberdus/Prepare.antt =====
-- `calculate_bias` and `prepare_list` of src/liberdus.rs.
pub mod Sorted
pub mod Result
use liberdus_proxy.Prelude.{
  ℕ, zero, suc, Bool, true, false, Option, none, some, List, [], ◌∷◌, map, Text, text_eq, leb, ◌==◌,
  if◌then◌else◌,
}
use liberdus_proxy.Prelude.HashMap
use liberdus_proxy.Prelude.HashMap.{HashMap}
use liberdus_proxy.Liberdus.Float.{Floats}
use liberdus_proxy.Liberdus.State.{store_nodes, Consensor, Liberdus}

abbrev pub or_max : ℕ → Option ℕ → ℕ
or_max max_timeout none = max_timeout
or_max max_timeout (some t) = t

module _ {F : Type 0} where
  -- `trip_ms.get(&node.id).unwrap_or(&max_timeout)`
  unfoldable pub trip_of : HashMap Text ℕ → ℕ → Consensor F → ℕ
  trip_of trip_ms max_timeout node = or_max max_timeout (HashMap.get node.id trip_ms)

  -- `sort_by` is stable: an element goes before those that compare equal and came later.
  insert_by : (Consensor F → ℕ) → Consensor F → List (Consensor F) → List (Consensor F)
  insert_by key x [] = x ∷ []
  insert_by key x (y ∷ ys) = if leb (key x) (key y) then x ∷ y ∷ ys else y ∷ insert_by key x ys

  unfoldable pub sort_by : (Consensor F → ℕ) → List (Consensor F) → List (Consensor F)
  unfolding insert_by
  sort_by key [] = []
  sort_by key (x ∷ xs) = insert_by key x (sort_by key xs)

module _ {F : Type 0} ⦃o : Floats F⦄ where
  unfoldable pub calculate_bias : ℕ → ℕ → F
  calculate_bias timetaken_ms max_timeout =
      if max_timeout == 1
      then o.float_one
      else o.sub o.float_one (
          o.div (o.sub (o.of_nat timetaken_ms) o.float_zero)
            (o.sub (o.of_nat max_timeout) o.float_zero))

  -- `node.rng_bias = Some(bias)` in the loop
  unfoldable pub set_bias : HashMap Text ℕ → ℕ → Consensor F → Consensor F
  set_bias trip_ms max_timeout node = record node {
    rng_bias = some (calculate_bias (trip_of trip_ms max_timeout node) max_timeout);
  }

  abbrev pub or_zero : Option F → F
  or_zero none = o.float_zero
  or_zero (some bias) = bias

  -- `total_bias += node.rng_bias.unwrap_or(0.0); cumulative_bias.push(total_bias)` in the loop
  unfoldable pub accumulate : F → List (Consensor F) → List F
  accumulate total_bias [] = []
  accumulate total_bias (node ∷ nodes) =
      let total = o.add total_bias (or_zero node.rng_bias) in total ∷ accumulate total nodes

  -- What is computed from the loaded nodes and trip times, before any store.
  abbrev pub sorted_nodes : Liberdus F → List (Consensor F)
  sorted_nodes s =
      map (set_bias s.trip_ms s.config.max_http_timeout_ms)
        (sort_by (trip_of s.trip_ms s.config.max_http_timeout_ms) s.active_nodelist)

  abbrev pub store_weights : List F → Liberdus F → Liberdus F
  store_weights weights s = record s { load_distribution_commulative_bias = weights }

  abbrev pub set_prepared : Liberdus F → Liberdus F
  set_prepared s = record s { list_prepared = true }

  -- The three stores, where no other task runs between them.
  unfoldable pub prepare_list : Liberdus F → Liberdus F
  prepare_list s =
      if s.list_prepared
      then s
      else set_prepared (
          store_weights (accumulate o.float_zero (sorted_nodes s)) (store_nodes (sorted_nodes s) s))
