-- ===== src/Liberdus/Search/Laws.antt =====
-- What the search returns, on ordered lists and on any.
use mathlib.Core.Path.{subst}
use liberdus_proxy.Prelude.{
  ℕ, zero, suc, ◌+◌, ◌-◌, ◌/◌, ◌≤◌, ◌<◌, ◌≡◌, ◌≢◌, refl, sym, ap, List, arith, Ordering, length,
  get_elem?-ge, ltb, Bool-cases, ◌⊎◌, inl, inr,
}
use liberdus_proxy.Liberdus.Search.{
  Search, found, missing, position, Ordering-cases, compare_at, halve, conclude, search_all,
  binary_search_by,
}

module _ {ℓ} {A : Type ℓ} (compare_with : A → Ordering) (xs : List A) where
  abbrev pub at : ℕ → Ordering
  at = compare_at compare_with xs

  -- What the loop keeps on any list: the range is within the list, and the base is 0 or its element
  -- is not greater.
  record Brackets (base size : ℕ) : Type 0 where
    positive : 0 < size
    inside : base + size ≤ length xs
    below : (base ≡ 0) ⊎ (at base ≢ Ordering.gt)

  Brackets-upper :
      (base size : ℕ)
      → 1 < size
      → at (base + size / 2) ≢ Ordering.gt
      → Brackets base size
      → Brackets (base + size / 2) (size - size / 2)
  Brackets-upper base size more e h = record {
    positive = omega arith;
    inside = omega (arith, h.inside);
    below = inr e;
  }

  Brackets-lower : (base size : ℕ) → 1 < size → Brackets base size → Brackets base (size - size / 2)
  Brackets-lower base size more h = record {
    positive = omega arith;
    inside = omega (arith, h.inside);
    below = h.below;
  }

  Brackets-halve :
      (fuel base size : ℕ)
      → size ≤ fuel
      → Brackets base size
      → Brackets (halve compare_with xs fuel base size) 1
  unfolding halve
  Brackets-halve zero base size le h = absurd (omega (arith, h.positive))
  Brackets-halve (suc fuel) base size le h = elim (Bool-cases (ltb 1 size)) [
    | inl more ↦ elim (Ordering-cases (at (base + size / 2))) [
      | inl e ↦
          rw (more, e, halve)
            (Brackets-halve fuel (base + size / 2) (size - size / 2) (ground arith)
              (Brackets-upper base size (ground arith) (λ g. ground arith) h))
      | inr (inl e) ↦
          rw (more, e, halve)
            (Brackets-halve fuel (base + size / 2) (size - size / 2) (ground arith)
              (Brackets-upper base size (ground arith) (λ g. ground arith) h))
      | inr (inr e) ↦
          rw (more, e, halve)
            (Brackets-halve fuel base (size - size / 2) (ground arith)
              (Brackets-lower base size (ground arith) h))
    ]
    | inr done ↦ let one : size ≡ 1 = ground (arith, h.positive) in rw (done, halve) (rw (← one) h)
  ]

  -- The list is ordered as the search takes it: less, then equal, then greater.
  pub record IsPartitioned : Type 0 where
    pub less : (i j : ℕ) → i ≤ j → at j ≡ Ordering.lt → at i ≡ Ordering.lt
    pub greater : (i j : ℕ) → i ≤ j → at i ≡ Ordering.gt → at j ≡ Ordering.gt

  halve_above :
      (fuel base size : ℕ)
      → IsPartitioned
      → size ≤ fuel
      → 0 < size
      → at (base + size) ≡ Ordering.gt
      → at (halve compare_with xs fuel base size + 1) ≡ Ordering.gt
  unfolding halve
  halve_above zero base size s le pos h = absurd (omega arith)
  halve_above (suc fuel) base size s le pos h = elim (Bool-cases (ltb 1 size)) [
    | inl more ↦
        let p : base + size / 2 + (size - size / 2) ≡ base + size = ground arith in
        elim (Ordering-cases (at (base + size / 2))) [
          | inl e ↦
              rw (more, e, halve)
                (halve_above fuel (base + size / 2) (size - size / 2) s (ground arith)
                  (ground arith) (rw p h))
          | inr (inl e) ↦
              rw (more, e, halve)
                (halve_above fuel (base + size / 2) (size - size / 2) s (ground arith)
                  (ground arith) (rw p h))
          | inr (inr e) ↦
              rw (more, e, halve)
                (halve_above fuel base (size - size / 2) s (ground arith) (ground arith)
                  (s.greater (base + size / 2) (base + (size - size / 2)) (ground arith) e))
        ]
    | inr done ↦ let one : size ≡ 1 = ground arith in rw (done, halve) (rw (← one) h)
  ]

  -- `Ok(i)` is an equal element; `Err(i)` has every lesser element before it and every greater one
  -- from it on.
  abbrev pub Locates : Search → Type 0
  Locates (found i) = at i ≡ Ordering.eq
  Locates (missing i) =
      ((j : ℕ) → j < i → at j ≡ Ordering.lt) × ((j : ℕ) → i ≤ j → at j ≡ Ordering.gt)

  Locates-conclude :
      (base : ℕ)
      → IsPartitioned
      → (base ≡ 0) ⊎ (at base ≢ Ordering.gt)
      → at (base + 1) ≡ Ordering.gt
      → Locates (conclude compare_with xs base (at base))
  unfolding conclude
  Locates-conclude base s below above = elim (Ordering-cases (at base)) [
    | inl e ↦
        rw (e, conclude)
          (λ j h. s.less j base (omega arith) e, λ j h. s.greater (base + 1) j h above)
    | inr (inl e) ↦ rw (e, conclude) e
    | inr (inr e) ↦ elim below [
      | inl z ↦ rw (e, conclude) (λ j h. absurd (omega arith), λ j h. s.greater base j h e)
      | inr n ↦ absurd (n e)
    ]
  ]

  start : (n : ℕ) → length xs ≡ suc n → Brackets 0 (suc n)
  start n e = record { positive = omega arith; inside = omega arith; below = inl refl }

  Locates-search_all :
      (n : ℕ) → length xs ≡ n → IsPartitioned → Locates (search_all compare_with xs n)
  unfolding search_all compare_at
  Locates-search_all zero e s =
      (λ j h. absurd (omega arith), λ j h. rw (get_elem?-ge xs j (omega arith), compare_at))
  Locates-search_all (suc n) e s =
      let done = Brackets-halve (suc n) 0 (suc n) (omega arith) (start n e) in
      Locates-conclude (halve compare_with xs (suc n) 0 (suc n)) s done.below (
        halve_above (suc n) 0 (suc n) s (omega arith) (omega arith)
          (rw (get_elem?-ge xs (0 + suc n) (omega arith), compare_at)))

  -- On an ordered list the search finds an equal element, or where one would be put.
  pub Locates-binary_search_by : IsPartitioned → Locates (binary_search_by compare_with xs)
  unfolding binary_search_by
  Locates-binary_search_by s = Locates-search_all (length xs) refl s

  conclude_in_range :
      (base : ℕ)
      → base < length xs
      → at (length xs - 1) ≡ Ordering.gt
      → position (conclude compare_with xs base (at base)) < length xs
  unfolding conclude
  conclude_in_range base h last = elim (Ordering-cases (at base)) [
    | inl e ↦
        let apart : base ≢ length xs - 1 = λ p. ground (arith, ap at p) in
        rw (e, conclude) (omega arith)
    | inr (inl e) ↦ rw (e, conclude) h
    | inr (inr e) ↦ rw (e, conclude) h
  ]

  in_range_search_all :
      (n : ℕ)
      → length xs ≡ suc n
      → at (length xs - 1) ≡ Ordering.gt
      → position (search_all compare_with xs (suc n)) < length xs
  unfolding search_all
  in_range_search_all n e last =
      let done = Brackets-halve (suc n) 0 (suc n) (omega arith) (start n e) in
      conclude_in_range (halve compare_with xs (suc n) 0 (suc n)) (omega (arith, done.inside)) last

  -- On any list whose last element is greater, ordered or not, the index is that of an element.
  pub binary_search_by-lt-length :
      0 < length xs
      → at (length xs - 1) ≡ Ordering.gt
      → position (binary_search_by compare_with xs) < length xs
  unfolding binary_search_by
  binary_search_by-lt-length pos last =
      let e : length xs ≡ suc (length xs - 1) = omega arith in
      subst (λ n. position (search_all compare_with xs n) < length xs) (sym e)
        (in_range_search_all (length xs - 1) e last)
