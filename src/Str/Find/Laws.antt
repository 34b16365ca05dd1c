-- ===== src/Str/Find/Laws.antt =====
-- A pattern that stands in a text stands at the same place in any longer text.
use liberdus_proxy.Prelude.{
  ℕ, zero, suc, ◌+◌, ◌≤◌, ◌≡◌, refl, ap, true, some, List, [], ◌∷◌, ◌++◌, arith, Text, length, take,
  Option-cases, Bool-cases, inl, inr,
}
use liberdus_proxy.Str.Find.{starts_with, find}

pub starts_with-append :
    (text rest pattern : Text)
    → length pattern ≤ length text
    → starts_with (text ++ rest) pattern ≡ starts_with text pattern
starts_with-append text rest [] h = refl
starts_with-append [] rest (p ∷ ps) h = absurd (omega arith)
starts_with-append (b ∷ bs) rest (p ∷ ps) h = ground (arith, starts_with-append bs rest ps)

length-le-of_starts_with :
    (text pattern : Text) → starts_with text pattern ≡ true → length pattern ≤ length text
length-le-of_starts_with text [] h = omega arith
length-le-of_starts_with [] (p ∷ ps) h = cc
length-le-of_starts_with (b ∷ bs) (p ∷ ps) h = ground (arith, length-le-of_starts_with bs ps)

-- The pattern fits in the text where it is found.
pub find-le :
    (text pattern : Text) (i : ℕ) → find text pattern ≡ some i → i + length pattern ≤ length text
unfolding find
find-le [] pattern i h = cc
find-le (b ∷ bs) pattern i h = elim (Bool-cases (starts_with (b ∷ bs) pattern)) [
  | inl e ↦ ground (arith, length-le-of_starts_with (b ∷ bs) pattern)
  | inr e ↦ elim (Option-cases (find bs pattern)) [
    | inl n ↦ absurd (ground arith)
    | inr (j, f) ↦ ground (arith, find-le bs pattern j f)
  ]
]

-- It is found first where the shorter text has it.
pub find-append :
    (text rest pattern : Text) (i : ℕ)
    → find text pattern ≡ some i
    → find (text ++ rest) pattern ≡ some i
unfolding find
find-append [] rest pattern i h = cc
find-append (b ∷ bs) rest pattern i h = elim (Bool-cases (starts_with (b ∷ bs) pattern)) [
  | inl e ↦
      ground
        (arith, starts_with-append (b ∷ bs) rest pattern, length-le-of_starts_with (b ∷ bs) pattern)
  | inr e ↦ elim (Option-cases (find bs pattern)) [
    | inl n ↦ absurd (ground arith)
    | inr (j, f) ↦ ground (
      arith,
      starts_with-append (b ∷ bs) rest pattern,
      find-le bs pattern j f,
      find-append bs rest pattern j f,
    )
  ]
]

pub take-append-le {ℓ} :
    {A : Type ℓ} (n : ℕ) (xs ys : List A) → n ≤ length xs → take n (xs ++ ys) ≡ take n xs
take-append-le zero xs ys h = refl
take-append-le (suc n) [] ys h = absurd (omega arith)
take-append-le (suc n) (x ∷ xs) ys h = ap (◌∷◌ x) (take-append-le n xs ys (omega arith))
