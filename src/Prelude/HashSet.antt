-- ===== src/Prelude/HashSet.antt =====
-- `std::collections::HashSet` as a list of its elements. Nothing here depends on their order.
use mathlib.Core.Path.{◌≡◌, refl}
use mathlib.Core.Bool.{Bool, true, false}
use mathlib.Core.List.{List, [], ◌∷◌}
use native.Mathlib.Omega.{arith}
use liberdus_proxy.Prelude.Tests.{Eq, if◌then◌else◌}
use liberdus_proxy.Prelude.Lists.{is_empty}

module _ {ℓ} {A : Type ℓ} ⦃e : Eq A⦄ where
  unfoldable pub contains : List A → A → Bool
  contains [] a = false
  contains (x ∷ xs) a = if e.beq x a then true else contains xs a

  unfoldable pub insert : A → List A → List A
  insert a xs = if contains xs a then xs else a ∷ xs

  unfoldable pub remove : A → List A → List A
  remove a [] = []
  remove a (x ∷ xs) = let rest = remove a xs in if e.beq x a then rest else x ∷ rest

  pub contains-insert :
      (a b : A) (xs : List A)
      → contains (insert a xs) b ≡ (if e.beq a b then true else contains xs b)
  unfolding insert contains
  contains-insert a b xs = ground (arith, e.beq_iff a b)

  pub contains-remove :
      (a b : A) (xs : List A)
      → contains (remove a xs) b ≡ (if e.beq a b then false else contains xs b)
  unfolding remove contains
  contains-remove a b [] = ground arith
  contains-remove a b (x ∷ xs) =
      ground (arith, contains-remove a b xs, e.beq_iff a b, e.beq_iff x a, e.beq_iff x b)

  pub is_empty-insert : (a : A) (xs : List A) → is_empty (insert a xs) ≡ false
  unfolding insert contains
  is_empty-insert a [] = refl
  is_empty-insert a (x ∷ xs) = ground arith

  -- An empty set has no element.
  pub contains-is_empty : (a : A) (xs : List A) → is_empty xs ≡ true → contains xs a ≡ false
  unfolding contains
  contains-is_empty a [] h = refl
  contains-is_empty a (x ∷ xs) h = ground arith
