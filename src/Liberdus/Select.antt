-- ===== src/Liberdus/Select.antt =====
-- How a request gets its node: `get_random_consensor_biased`, `get_next_appropriate_consensor` and
-- the retrying call of src/liberdus.rs.
pub mod Serves
pub mod RoundRobin
pub mod Leaves
use liberdus_proxy.Prelude.{
  ℕ, zero, suc, ◌+◌, ◌%◌, ◌^◌, Bool, true, false, ◌&&◌, ◌||◌, Option, none, some, List, [], ◌∷◌,
  Ordering, length, is_empty, get_elem?, leb, ◌==◌, if◌then◌else◌, Outcome, returned, panicked,
}
use liberdus_proxy.Liberdus.Float.{Floats, Rng}
use liberdus_proxy.Liberdus.State.{Consensor, Liberdus}
use liberdus_proxy.Liberdus.Search.{binary_search_by, position}
use liberdus_proxy.Liberdus.Prepare.{prepare_list}

-- A chosen node with its index, or none; and the state after the call.
abbrev pub Choice : Type 0 → Type 0
Choice F = Outcome (Option (ℕ × Consensor F) × Liberdus F)

module _ {F : Type 0} where
  -- `nodes[index]`
  unfoldable pub pick : List (Consensor F) → ℕ → Liberdus F → Choice F
  pick nodes index s = elim (get_elem? nodes index) [
    | none ↦ panicked
    | some node ↦ returned (some (index, node), s)
  ]

  -- `cumulative_weights.last().unwrap_or(&…)`
  abbrev pub last_or : F → List F → F
  last_or d [] = d
  last_or d (x ∷ xs) = last_or x xs

module _ {F : Type 0} ⦃o : Floats F⦄ where
  -- `bias.partial_cmp(&random_value).unwrap_or(Ordering::Equal)`
  abbrev pub cmp_or_equal : F → F → Ordering
  cmp_or_equal random_value bias = elim (o.partial_cmp bias random_value) [
    | none ↦ Ordering.eq
    | some c ↦ c
  ]

  -- `gen_range` panics on an empty range, and `0.0..total_bias` is empty unless 0.0 < total_bias.
  unfoldable pub choose : Rng F → Option Ordering → F → Liberdus F → Choice F
  choose rng (some Ordering.lt) total_bias s =
      pick s.active_nodelist
        (position (
          binary_search_by (cmp_or_equal (rng.gen_float total_bias))
            s.load_distribution_commulative_bias))
        s
  choose rng (some Ordering.eq) total_bias s =
      pick s.active_nodelist (rng.gen_index (length s.active_nodelist))
        (record s { round_robin_index = 0; list_prepared = false })
  choose rng (some Ordering.gt) total_bias s = panicked
  choose rng none total_bias s = panicked

  unfoldable pub get_random_consensor_biased : Rng F → Liberdus F → Choice F
  unfolding choose
  get_random_consensor_biased rng s =
      if s.list_prepared
      then (if is_empty s.active_nodelist || is_empty s.load_distribution_commulative_bias
          then returned (none, s)
          else (let total_bias = last_or o.float_one s.load_distribution_commulative_bias in
              choose rng (o.partial_cmp o.float_zero total_bias) total_bias s))
      else returned (none, s)

  -- `fetch_add` on an `AtomicUsize` wraps.
  unfoldable pub advance_index : Liberdus F → Liberdus F
  advance_index s = record s { round_robin_index = (s.round_robin_index + 1) % 2 ^ 64 }

  unfoldable pub round_robin : Rng F → Liberdus F → Choice F
  round_robin rng s =
      if leb (length s.active_nodelist) s.round_robin_index
      then get_random_consensor_biased rng (prepare_list (advance_index s))
      else pick s.active_nodelist s.round_robin_index (advance_index s)

  unfoldable pub get_next_appropriate_consensor : Rng F → Liberdus F → Choice F
  unfolding round_robin
  get_next_appropriate_consensor rng s =
      if is_empty s.active_nodelist
      then returned (none, s)
      else if s.list_prepared
          && (length s.load_distribution_commulative_bias == length s.active_nodelist)
      then get_random_consensor_biased rng s
      else round_robin rng s

  -- `if let Some(respond) = …` returns; else the loop goes on from the state that the call left.
  unfoldable pub or_again : Choice F → (Liberdus F → Choice F) → Choice F
  or_again panicked again = panicked
  or_again (returned (some respond, s)) again = returned (some respond, s)
  or_again (returned (none, s)) again = again s

  -- The loop: `left` is `max_retry + 1 - retry`, so that it is 0 when `retry > max_retry`. Each
  -- attempt has its draws, and while the loop sleeps other tasks may change the state.
  unfoldable pub retry_loop :
      (ℕ → Rng F) → (ℕ → Liberdus F → Liberdus F) → ℕ → ℕ → Liberdus F → Choice F
  retry_loop rngs others zero retry s = get_next_appropriate_consensor (rngs retry) s
  retry_loop rngs others (suc left) retry s =
      or_again (get_next_appropriate_consensor (rngs retry) s)
        λ s'. retry_loop rngs others left (suc retry) (others retry s')

  unfoldable pub get_next_appropriate_consensor_with_retry :
      (ℕ → Rng F) → (ℕ → Liberdus F → Liberdus F) → ℕ → Liberdus F → Choice F
  unfolding or_again retry_loop
  get_next_appropriate_consensor_with_retry rngs others max_retry s =
      retry_loop rngs others (max_retry + 1) 0 s
