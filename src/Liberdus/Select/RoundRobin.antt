-- ===== src/Liberdus/Select/RoundRobin.antt =====
-- The calls before the list is prepared.
use native.Mathlib.Nat.{add-zero}
use liberdus_proxy.Prelude.{
  ℕ, zero, suc, ◌+◌, ◌≤◌, ◌<◌, ◌^◌, ◌≡◌, refl, ◌∙◌, false, none, some, List, [], ◌∷◌, arith, length,
  get_elem?, get_elem?-lt, take, drop, Outcome, returned, panicked,
}
use liberdus_proxy.Liberdus.Float.{Floats, Rng}
use liberdus_proxy.Liberdus.State.{Consensor, Liberdus}
use liberdus_proxy.Liberdus.Select.{
  Choice, pick, advance_index, round_robin, get_next_appropriate_consensor,
}
use liberdus_proxy.Liberdus.Select.Serves.{next_unprepared}

module _ {F : Type 0} ⦃o : Floats F⦄ where
  cons_choice :
      ℕ × Consensor F
      → Outcome (List (ℕ × Consensor F) × Liberdus F)
      → Outcome (List (ℕ × Consensor F) × Liberdus F)
  cons_choice c (returned (cs, s)) = returned (c ∷ cs, s)
  cons_choice c panicked = panicked

  -- The choices of `k` calls in a row, up to the first that has none.
  abbrev after_choice :
      Choice F
      → (Liberdus F → Outcome (List (ℕ × Consensor F) × Liberdus F))
      → Outcome (List (ℕ × Consensor F) × Liberdus F)
  after_choice panicked again = panicked
  after_choice (returned (none, s)) again = returned ([], s)
  after_choice (returned (some c, s)) again = cons_choice c (again s)

  pub choices : (ℕ → Rng F) → ℕ → Liberdus F → Outcome (List (ℕ × Consensor F) × Liberdus F)
  choices rngs zero s = returned ([], s)
  choices rngs (suc k) s =
      after_choice (get_next_appropriate_consensor (rngs k) s) λ s'. choices rngs k s'

  -- The nodes from an index on, each with its index.
  abbrev pub numbered : ℕ → List (Consensor F) → List (ℕ × Consensor F)
  numbered i [] = []
  numbered i (x ∷ xs) = (i, x) ∷ numbered (suc i) xs

  step :
      (rng : Rng F) (s : Liberdus F) (node : Consensor F)
      → s.list_prepared ≡ false
      → get_elem? s.active_nodelist s.round_robin_index ≡ some node
      → s.round_robin_index < length s.active_nodelist
      → length s.active_nodelist < 2 ^ 64
      → get_next_appropriate_consensor rng s
        ≡ returned (
          some (s.round_robin_index, node),
          record s { round_robin_index = s.round_robin_index + 1 },
        )
  unfolding round_robin pick advance_index
  step rng s node e found within small = next_unprepared rng s (omega arith) e ∙ ground arith

  drop_step :
      (i : ℕ) (nodes : List (Consensor F)) (node : Consensor F)
      → get_elem? nodes i ≡ some node
      → drop i nodes ≡ node ∷ drop (suc i) nodes
  drop_step i [] node h = absurd (cc)
  drop_step zero (x ∷ xs) node h = cc
  drop_step (suc i) (x ∷ xs) node h = drop_step i xs node h

  -- While a list of fewer than 2 ^ 64 nodes is not prepared, `k` calls from index `i` on return the
  -- nodes `i` to `i + k - 1` in their order, each with its index, and leave the index at `i + k`.
  pub choices_round_robin :
      (rngs : ℕ → Rng F) (k : ℕ) (s : Liberdus F)
      → s.list_prepared ≡ false
      → s.round_robin_index + k ≤ length s.active_nodelist
      → length s.active_nodelist < 2 ^ 64
      → choices rngs k s
        ≡ returned (
          numbered s.round_robin_index (take k (drop s.round_robin_index s.active_nodelist)),
          record s { round_robin_index = s.round_robin_index + k },
        )
  unfolding choices cons_choice
  choices_round_robin rngs zero s e h small = rw add-zero
  choices_round_robin rngs (suc k) s e h small =
      let (node, found) = get_elem?-lt s.active_nodelist s.round_robin_index (omega arith) in
      let s' : Liberdus F = record s { round_robin_index = s.round_robin_index + 1 } in
      let i+1 : s.round_robin_index + 1 ≡ suc s.round_robin_index = omega arith in
      let i+k : s.round_robin_index + 1 + k ≡ s.round_robin_index + suc k = omega arith in
      rw
        (
          step (rngs k) s node e found (omega arith) small,
          choices_round_robin rngs k s' e (omega arith) small,
          i+k,
          i+1,
          drop_step s.round_robin_index s.active_nodelist node found,
        )
        refl
