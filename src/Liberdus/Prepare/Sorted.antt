-- ===== src/Liberdus/Prepare/Sorted.antt =====
-- The order of the list that `prepare_list` stores.
use mathlib.Core.List.{Perm}
use mathlib.Core.List.Perm
use liberdus_proxy.Prelude.{
  ℕ, suc, ◌≤◌, ◌≡◌, refl, List, [], ◌∷◌, arith, All, text_eq, length, leb, Bool-cases, inl, inr,
}
use liberdus_proxy.Liberdus.State.{Consensor}
use liberdus_proxy.Liberdus.Prepare.{insert_by, sort_by}

module _ {F : Type 0} (key : Consensor F → ℕ) where
  -- Each node's key is at most that of every later node.
  abbrev pub IsSortedBy : List (Consensor F) → Type 0
  IsSortedBy [] = Unit
  IsSortedBy (x ∷ xs) = All (λ y. key x ≤ key y) xs × IsSortedBy xs

  All-insert_by :
      (m : ℕ) (x : Consensor F) (ys : List (Consensor F))
      → m ≤ key x
      → All (λ y. m ≤ key y) ys
      → All (λ y. m ≤ key y) (insert_by key x ys)
  unfolding insert_by
  All-insert_by m x [] le h = (le, tt)
  All-insert_by m x (y ∷ ys) le h = elim (Bool-cases (leb (key x) (key y))) [
    | inl first ↦ rw (first, insert_by) (le, h)
    | inr later ↦ rw (later, insert_by) (h.0, All-insert_by m x ys le h.1)
  ]

  All-le_trans :
      (m n : ℕ) (ys : List (Consensor F))
      → m ≤ n
      → All (λ y. n ≤ key y) ys
      → All (λ y. m ≤ key y) ys
  All-le_trans m n [] le h = tt
  All-le_trans m n (y ∷ ys) le h = (omega (arith, h.0), All-le_trans m n ys le h.1)

  IsSortedBy-insert_by :
      (x : Consensor F) (ys : List (Consensor F)) → IsSortedBy ys → IsSortedBy (insert_by key x ys)
  unfolding insert_by
  IsSortedBy-insert_by x [] h = (tt, tt)
  IsSortedBy-insert_by x (y ∷ ys) h = elim (Bool-cases (leb (key x) (key y))) [
    | inl first ↦
        let le : key x ≤ key y = ground arith in
        rw (first, insert_by) ((le, All-le_trans (key x) (key y) ys le h.0), h)
    | inr later ↦
        rw (later, insert_by)
          (All-insert_by (key y) x ys (ground arith) h.0, IsSortedBy-insert_by x ys h.1)
  ]

  pub IsSortedBy-sort_by : (xs : List (Consensor F)) → IsSortedBy (sort_by key xs)
  unfolding sort_by
  IsSortedBy-sort_by [] = tt
  IsSortedBy-sort_by (x ∷ xs) = IsSortedBy-insert_by x (sort_by key xs) (IsSortedBy-sort_by xs)

  insert_by-perm : (x : Consensor F) (ys : List (Consensor F)) → Perm (insert_by key x ys) (x ∷ ys)
  unfolding insert_by
  insert_by-perm x [] = Perm.refl (x ∷ [])
  insert_by-perm x (y ∷ ys) = elim (Bool-cases (leb (key x) (key y))) [
    | inl first ↦ rw (first, insert_by) (Perm.refl (x ∷ y ∷ ys))
    | inr later ↦
        rw (later, insert_by) (Perm.trans (Perm.cons y (insert_by-perm x ys)) (Perm.swap x y ys))
  ]

  pub sort_by-perm : (xs : List (Consensor F)) → Perm (sort_by key xs) xs
  unfolding sort_by
  sort_by-perm [] = Perm.refl []
  sort_by-perm (x ∷ xs) =
      Perm.trans (insert_by-perm x (sort_by key xs)) (Perm.cons x (sort_by-perm xs))

  length-insert_by :
      (x : Consensor F) (ys : List (Consensor F)) → length (insert_by key x ys) ≡ suc (length ys)
  unfolding insert_by
  length-insert_by x [] = refl
  length-insert_by x (y ∷ ys) = ground (arith, length-insert_by x ys)

  pub length-sort_by : (xs : List (Consensor F)) → length (sort_by key xs) ≡ length xs
  unfolding sort_by
  length-sort_by [] = refl
  length-sort_by (x ∷ xs) = omega (arith, length-insert_by x (sort_by key xs), length-sort_by xs)
