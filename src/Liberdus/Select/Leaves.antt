-- ===== src/Liberdus/Select/Leaves.antt =====
-- What a call for a node keeps.
use liberdus_proxy.Prelude.{
  if-P, ℕ, false, Option, none, some, List, text_eq, Ordering, ◌==◌, returned, panicked, get_elem?,
  is_empty, length, leb, ◌&&◌, ◌||◌,
}
use liberdus_proxy.Liberdus.Float.{Floats, Rng}
use liberdus_proxy.Liberdus.State.{Consensor, Liberdus}
use liberdus_proxy.Liberdus.Prepare.{prepare_list}
use liberdus_proxy.Liberdus.Select.{
  Choice, pick, last_or, choose, get_random_consensor_biased, advance_index, round_robin,
  get_next_appropriate_consensor,
}

module _ {F : Type 0} where
  -- The state that a call leaves, if it returns.
  abbrev pub Leaves : (Liberdus F → Type 0) → Choice F → Type 0
  Leaves P panicked = Unit
  Leaves P (returned (_, s)) = P s

-- What the three changes that a call can make keep.
pub record IsClosed {F : Type 0} (o : Floats F) (P : Liberdus F → Type 0) : Type 0 where
  pub prepared : (s : Liberdus F) → P s → P (prepare_list ⦃o = o⦄ s)
  pub advanced : (s : Liberdus F) → P s → P (advance_index ⦃o = o⦄ s)
  pub unprepared :
      (s : Liberdus F) → P s → P (record s { round_robin_index = 0; list_prepared = false })

module _ {F : Type 0} ⦃o : Floats F⦄ (P : Liberdus F → Type 0) (closed : IsClosed o P) where
  Leaves-pick :
      (nodes : List (Consensor F)) (index : ℕ) (s : Liberdus F)
      → P s
      → Leaves P (pick nodes index s)
  unfolding pick
  Leaves-pick nodes index s v = go (get_elem? nodes index)
    where
      go :
          (o : Option (Consensor F))
          → Leaves P (elim o [ none ↦ panicked | some node ↦ returned (some (index, node), s) ])
      go none = tt
      go (some node) = v

  Leaves-choose :
      (rng : Rng F) (c : Option Ordering) (total : F) (s : Liberdus F)
      → P s
      → Leaves P (choose rng c total s)
  unfolding choose
  Leaves-choose rng none total s v = tt
  Leaves-choose rng (some Ordering.gt) total s v = tt
  Leaves-choose rng (some Ordering.lt) total s v = Leaves-pick s.active_nodelist _ s v
  Leaves-choose rng (some Ordering.eq) total s v =
      Leaves-pick s.active_nodelist _ (record s { round_robin_index = 0; list_prepared = false })
        (closed.unprepared s v)

  Leaves-get_random_consensor_biased :
      (rng : Rng F) (s : Liberdus F) → P s → Leaves P (get_random_consensor_biased rng s)
  unfolding get_random_consensor_biased
  Leaves-get_random_consensor_biased rng s v =
      let total = last_or o.float_one s.load_distribution_commulative_bias in
      if-P (Leaves P) s.list_prepared _ _
        (λ e.
          if-P (Leaves P)
            (is_empty s.active_nodelist || is_empty s.load_distribution_commulative_bias)
            (returned (none, s)) (choose rng (o.partial_cmp o.float_zero total) total s) (λ e'. v)
            (λ e'. Leaves-choose rng (o.partial_cmp o.float_zero total) total s v))
        (λ e. v)

  Leaves-round_robin : (rng : Rng F) (s : Liberdus F) → P s → Leaves P (round_robin rng s)
  unfolding round_robin
  Leaves-round_robin rng s v =
      let advanced = closed.advanced s v in
      if-P (Leaves P) (leb (length s.active_nodelist) s.round_robin_index) _ _
        (λ e.
          Leaves-get_random_consensor_biased rng (prepare_list (advance_index s))
            (closed.prepared _ advanced))
        (λ e. Leaves-pick s.active_nodelist s.round_robin_index _ advanced)

  pub Leaves-next :
      (rng : Rng F) (s : Liberdus F) → P s → Leaves P (get_next_appropriate_consensor rng s)
  unfolding get_next_appropriate_consensor
  Leaves-next rng s v =
      if-P (Leaves P) (is_empty s.active_nodelist) (returned (none, s)) _ (λ e. v)
        λ e.
          if-P (Leaves P)
            (s.list_prepared
              && (length s.load_distribution_commulative_bias == length s.active_nodelist))
            (get_random_consensor_biased rng s) (round_robin rng s)
            (λ e'. Leaves-get_random_consensor_biased rng s v) (λ e'. Leaves-round_robin rng s v)
