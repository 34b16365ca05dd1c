-- ===== src/Liberdus/Search.antt =====
-- `slice::binary_search_by` of the Rust standard library, which picks the node for a random value.
pub mod Laws
use liberdus_proxy.Prelude.{
  ℕ, zero, suc, ◌+◌, ◌-◌, ◌/◌, ◌≤◌, ◌<◌, ◌≡◌, ◌≢◌, refl, sym, Bool, true, false, none, some, List,
  [], ◌∷◌, arith, Ordering, length, get_elem?, get_elem?-ge, ltb, if◌then◌else◌, Bool-cases, ◌⊎◌,
  inl, inr,
}

-- `Ok(i)` and `Err(i)`
pub data Search : Type 0 where
  found missing : ℕ → Search

module _ {ℓ} {A : Type ℓ} (compare_with : A → Ordering) (xs : List A) where
  -- An index past the end compares as greater; the loop reads none.
  unfoldable pub compare_at : ℕ → Ordering
  compare_at i = elim (get_elem? xs i) [ none ↦ Ordering.gt | some a ↦ compare_with a ]

  abbrev is_greater : Ordering → Bool
  is_greater o = elim o [ Ordering.gt ↦ true | _ ↦ false ]

  -- `while size > 1`; `size` halves, so that it bounds the rounds.
  halve : ℕ → ℕ → ℕ → ℕ
  halve zero base size = base
  halve (suc fuel) base size = elim (ltb 1 size) [
    | true ↦
        halve fuel (if is_greater (compare_at (base + size / 2)) then base else base + size / 2)
          (size - size / 2)
    | false ↦ base
  ]

  conclude : ℕ → Ordering → Search
  conclude base o = elim o [
    | Ordering.eq ↦ found base
    | Ordering.lt ↦ missing (base + 1)
    | Ordering.gt ↦ missing base
  ]

  search_all : ℕ → Search
  search_all zero = missing 0
  search_all (suc n) = conclude (halve (suc n) 0 (suc n)) (compare_at (halve (suc n) 0 (suc n)))

  unfoldable pub binary_search_by : Search
  unfolding compare_at halve conclude search_all
  binary_search_by = search_all (length xs)

-- `match … { Ok(i) => i, Err(i) => i }`
abbrev pub position : Search → ℕ
position (found i) = i
position (missing i) = i

pub Ordering-cases : (o : Ordering) → (o ≡ Ordering.lt) ⊎ (o ≡ Ordering.eq) ⊎ (o ≡ Ordering.gt)
Ordering-cases Ordering.lt = inl refl
Ordering-cases Ordering.eq = inr (inl refl)
Ordering-cases Ordering.gt = inr (inr refl)
