-- ===== src/Liberdus/Select/Serves.antt =====
-- What a call for a node returns, and its panics.
use mathlib.Core.Path.{subst}
use liberdus_proxy.Prelude.{
  ℕ, suc, ◌-◌, ◌<◌, ◌≡◌, refl, ◌∙◌, true, false, none, some, List, [], ◌∷◌, arith, Ordering, length,
  is_empty, get_elem?, get_elem?-lt, leb, Bool-cases, returned, panicked, ◌⊎◌, inl, inr,
}
use liberdus_proxy.Liberdus.Float.{Floats, FloatLaws, Rng, RngLaws}
use liberdus_proxy.Liberdus.State.{Consensor, Liberdus}
use liberdus_proxy.Liberdus.Search.{binary_search_by, position, compare_at}
use liberdus_proxy.Liberdus.Search.Laws.{binary_search_by-lt-length}
use liberdus_proxy.Liberdus.Prepare.{prepare_list}
use liberdus_proxy.Liberdus.Prepare.Result.{length-prepare_list}
use liberdus_proxy.Liberdus.Select.{
  Choice, pick, last_or, cmp_or_equal, get_random_consensor_biased, advance_index, round_robin,
  get_next_appropriate_consensor,
}

is_empty-pos {ℓ} : {A : Type ℓ} (xs : List A) → 0 < length xs → is_empty xs ≡ false
is_empty-pos [] h = elim h [ ]
is_empty-pos (x ∷ xs) h = refl

nil-or-pos {ℓ} : {A : Type ℓ} (xs : List A) → (xs ≡ []) ⊎ (0 < length xs)
nil-or-pos [] = inl refl
nil-or-pos (x ∷ xs) = inr (omega arith)

module _ {F : Type 0} where
  -- A prepared list has a weight for each node.
  abbrev pub IsWellFormed : Liberdus F → Type 0
  IsWellFormed s =
      s.list_prepared ≡ true
      → length s.load_distribution_commulative_bias ≡ length s.active_nodelist

  -- The call returns a node of the list with its index, or finds no node; it does not panic, and
  -- the state that it leaves is well formed.
  abbrev pub Serves : Choice F → Type 0
  Serves panicked = ⊥
  Serves (returned (none, s)) = (s.active_nodelist ≡ []) × IsWellFormed s
  Serves (returned (some (index, node), s)) =
      (get_elem? s.active_nodelist index ≡ some node) × IsWellFormed s

  Serves-pick :
      (s : Liberdus F) (index : ℕ)
      → index < length s.active_nodelist
      → IsWellFormed s
      → Serves (pick s.active_nodelist index s)
  unfolding pick
  Serves-pick s index h v =
      let (node, e) = get_elem?-lt s.active_nodelist index h in rw (e, pick) (e, v)

  get_elem?-last_or :
      (d : F) (ws : List F) → 0 < length ws → get_elem? ws (length ws - 1) ≡ some (last_or d ws)
  get_elem?-last_or d [] h = elim h [ ]
  get_elem?-last_or d (w ∷ []) h = refl
  get_elem?-last_or d (w ∷ v ∷ ws) h =
      let e : length (w ∷ v ∷ ws) - 1 ≡ suc (length (v ∷ ws) - 1) = omega arith in
      rw e (get_elem?-last_or w (v ∷ ws) (omega arith))

module _ {F : Type 0} ⦃o : Floats F⦄ where
  -- The last weight is 0.0 or above, so that the call has a range to draw from.
  abbrev pub IsDrawable : Liberdus F → Type 0
  IsDrawable s =
      let total = last_or o.float_one s.load_distribution_commulative_bias in
      (o.partial_cmp o.float_zero total ≡ some Ordering.lt)
      ⊎ (o.partial_cmp o.float_zero total ≡ some Ordering.eq)

  abbrev reset : Liberdus F → Liberdus F
  reset s = record s { round_robin_index = 0; list_prepared = false }

  module _ (rng : Rng F) (s : Liberdus F) where
    draw_weighted :
        s.list_prepared ≡ true
        → length s.load_distribution_commulative_bias ≡ length s.active_nodelist
        → 0 < length s.active_nodelist
        → o.partial_cmp o.float_zero (last_or o.float_one s.load_distribution_commulative_bias)
          ≡ some Ordering.lt
        → get_random_consensor_biased rng s
          ≡ pick s.active_nodelist
              (position (
                binary_search_by
                  (cmp_or_equal
                    (rng.gen_float (last_or o.float_one s.load_distribution_commulative_bias)))
                  s.load_distribution_commulative_bias))
              s
    unfolding get_random_consensor_biased
    draw_weighted prepared same pos e =
        ground
          (arith, is_empty-pos s.active_nodelist, is_empty-pos s.load_distribution_commulative_bias)

    draw_any :
        s.list_prepared ≡ true
        → length s.load_distribution_commulative_bias ≡ length s.active_nodelist
        → 0 < length s.active_nodelist
        → o.partial_cmp o.float_zero (last_or o.float_one s.load_distribution_commulative_bias)
          ≡ some Ordering.eq
        → get_random_consensor_biased rng s
          ≡ pick s.active_nodelist (rng.gen_index (length s.active_nodelist)) (reset s)
    unfolding get_random_consensor_biased
    draw_any prepared same pos e =
        ground
          (arith, is_empty-pos s.active_nodelist, is_empty-pos s.load_distribution_commulative_bias)

  weights-advance_index :
      (s : Liberdus F)
      → (prepare_list (advance_index s)).load_distribution_commulative_bias
        ≡ (prepare_list s).load_distribution_commulative_bias
  unfolding prepare_list advance_index
  weights-advance_index s = ground arith

  pub prepare_list_of_prepared : (s : Liberdus F) → s.list_prepared ≡ true → prepare_list s ≡ s
  unfolding prepare_list
  prepare_list_of_prepared s e = ground arith

  pub next_prepared :
      (rng : Rng F) (s : Liberdus F)
      → 0 < length s.active_nodelist
      → s.list_prepared ≡ true
      → length s.load_distribution_commulative_bias ≡ length s.active_nodelist
      → get_next_appropriate_consensor rng s ≡ get_random_consensor_biased rng s
  unfolding get_next_appropriate_consensor
  next_prepared rng s pos e same = ground (arith, is_empty-pos s.active_nodelist)

  pub next_unprepared :
      (rng : Rng F) (s : Liberdus F)
      → 0 < length s.active_nodelist
      → s.list_prepared ≡ false
      → get_next_appropriate_consensor rng s ≡ round_robin rng s
  unfolding get_next_appropriate_consensor
  next_unprepared rng s pos e = ground (arith, is_empty-pos s.active_nodelist)

  next_of_empty :
      (rng : Rng F) (s : Liberdus F)
      → s.active_nodelist ≡ []
      → get_next_appropriate_consensor rng s ≡ returned (none, s)
  unfolding get_next_appropriate_consensor
  next_of_empty rng s e = ground arith

  module _ (laws : FloatLaws o) (rng : Rng F) (draws : RngLaws o rng) where
    last_is_greater :
        (d : F) (ws : List F)
        → 0 < length ws
        → o.partial_cmp o.float_zero (last_or d ws) ≡ some Ordering.lt
        → compare_at (cmp_or_equal (rng.gen_float (last_or d ws))) ws (length ws - 1) ≡ Ordering.gt
    unfolding compare_at
    last_is_greater d ws pos e =
        let total = last_or d ws in
        ground (
          arith,
          get_elem?-last_or d ws,
          laws.cmp_swap (rng.gen_float total) total (draws.gen_float-lt total e),
        )

    index_in_range :
        (nodes : List (Consensor F)) (ws : List F)
        → o.partial_cmp o.float_zero (last_or o.float_one ws) ≡ some Ordering.lt
        → length ws ≡ length nodes
        → 0 < length nodes
        → position (binary_search_by (cmp_or_equal (rng.gen_float (last_or o.float_one ws))) ws)
          < length nodes
    index_in_range nodes ws e same pos =
        let found =
          binary_search_by-lt-length (cmp_or_equal (rng.gen_float (last_or o.float_one ws))) ws
            (omega arith) (last_is_greater o.float_one ws (omega arith) e) in
        omega arith

    Serves-get_random_consensor_biased :
        (s : Liberdus F)
        → s.list_prepared ≡ true
        → length s.load_distribution_commulative_bias ≡ length s.active_nodelist
        → 0 < length s.active_nodelist
        → IsDrawable s
        → Serves (get_random_consensor_biased rng s)
    Serves-get_random_consensor_biased s prepared same pos drawable =
        let ws = s.load_distribution_commulative_bias in
        elim drawable [
          | inl e ↦
              rw (draw_weighted rng s prepared same pos e)
                (Serves-pick s _ (index_in_range s.active_nodelist ws e same pos) (λ _. same))
          | inr e ↦ rw (draw_any rng s prepared same pos e) (
              Serves-pick (reset s) _ (draws.gen_index-lt (length s.active_nodelist) pos) (λ p. cc))
        ]

    Serves-prepared :
        (s : Liberdus F)
        → s.list_prepared ≡ false
        → 0 < length s.active_nodelist
        → IsDrawable (prepare_list s)
        → Serves (get_random_consensor_biased rng (prepare_list s))
    Serves-prepared s e pos drawable =
        let (same, kept, prepared) = length-prepare_list s e in
        Serves-get_random_consensor_biased (prepare_list s) prepared same (omega arith) drawable

    Serves-round_robin :
        (s : Liberdus F)
        → s.list_prepared ≡ false
        → 0 < length s.active_nodelist
        → IsDrawable (prepare_list s)
        → Serves (round_robin rng s)
    unfolding round_robin advance_index
    Serves-round_robin s e pos drawable =
        elim (Bool-cases (leb (length s.active_nodelist) s.round_robin_index)) [
          | inl past ↦
              rw past
                (Serves-prepared (advance_index s) e pos (rw (weights-advance_index s) drawable))
          | inr within ↦
              rw within (Serves-pick (advance_index s) s.round_robin_index (ground arith) (λ p. cc))
        ]

    -- With the laws of the floats and of the draws: from a well-formed state whose weights, once
    -- prepared, leave a range to draw from, a call returns a node of the list with its index, or
    -- the list is empty. It does not panic.
    pub Serves-get_next_appropriate_consensor :
        (s : Liberdus F)
        → IsWellFormed s
        → IsDrawable (prepare_list s)
        → Serves (get_next_appropriate_consensor rng s)
    Serves-get_next_appropriate_consensor s v drawable = elim (nil-or-pos s.active_nodelist) [
      | inl e ↦ rw (next_of_empty rng s e) (e, v)
      | inr pos ↦ elim (Bool-cases s.list_prepared) [
        | inl prepared ↦ rw (next_prepared rng s pos prepared (v prepared)) (
            Serves-get_random_consensor_biased s prepared (v prepared) pos
              (subst IsDrawable (prepare_list_of_prepared s prepared) drawable))
        | inr e ↦ rw (next_unprepared rng s pos e) (Serves-round_robin s e pos drawable)
      ]
    ]

  -- Where the last weight is below 0.0, or not a number, a call on a prepared list panics: no range
  -- is left to draw from.
  pub get_next_appropriate_consensor_panics :
      (rng : Rng F) (s : Liberdus F)
      → 0 < length s.active_nodelist
      → s.list_prepared ≡ true
      → length s.load_distribution_commulative_bias ≡ length s.active_nodelist
      → ¬ IsDrawable s
      → get_next_appropriate_consensor rng s ≡ panicked
  unfolding get_random_consensor_biased
  get_next_appropriate_consensor_panics rng s pos prepared same bad =
      let total = last_or o.float_one s.load_distribution_commulative_bias in
      next_prepared rng s pos prepared same
      ∙ ground
          (arith, is_empty-pos s.active_nodelist, is_empty-pos s.load_distribution_commulative_bias)
