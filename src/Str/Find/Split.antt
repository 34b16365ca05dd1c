-- ===== src/Str/Find/Split.antt =====
-- A text is what stands before the pattern, the pattern, and what stands after it.
use liberdus_proxy.Prelude.{
  ℕ, suc, ◌+◌, ◌≡◌, refl, ap, true, some, [], ◌∷◌, ◌++◌, arith, Text, ==_iff, length, take, drop,
  Option-cases, Bool-cases, inl, inr,
}
use liberdus_proxy.Str.Find.{starts_with, find, split_once}

starts_with-split :
    (text pattern : Text)
    → starts_with text pattern ≡ true
    → pattern ++ drop (length pattern) text ≡ text
starts_with-split text [] h = ground arith
starts_with-split [] (p ∷ ps) h = absurd (ground arith)
starts_with-split (b ∷ bs) (p ∷ ps) h = ground (arith, starts_with-split bs ps, ==_iff b p)

pub find-split :
    (text pattern : Text) (i : ℕ)
    → find text pattern ≡ some i
    → take i text ++ (pattern ++ drop (i + length pattern) text) ≡ text
unfolding find
find-split [] pattern i h = absurd (ground arith)
find-split (b ∷ bs) pattern i h = elim (Bool-cases (starts_with (b ∷ bs) pattern)) [
  | inl e ↦ ground (arith, starts_with-split (b ∷ bs) pattern)
  | inr e ↦ elim (Option-cases (find bs pattern)) [
    | inl n ↦ absurd (ground arith)
    | inr (j, f) ↦
        let here : i ≡ suc j = ground arith in
        let after : suc j + length pattern ≡ suc (j + length pattern) = omega arith in
        rw (here, after) (ap (◌∷◌ b) (find-split bs pattern j f))
  ]
]

pub split_once-find :
    (text pattern : Text) (i : ℕ)
    → find text pattern ≡ some i
    → split_once text pattern ≡ (take i text, some (drop (i + length pattern) text))
split_once-find text pattern i h = rw (h, split_once) refl
