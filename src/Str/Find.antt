-- ===== src/Str/Find.antt =====
-- `starts_with`, `strip_prefix`, `find`, `contains`, `split` and `splitn`.
pub mod Laws
pub mod Split
use liberdus_proxy.Prelude.{
  ◌+◌, take, drop, length, ◌++◌, ℕ, zero, suc, Bool, true, false, ◌&&◌, Option, none, some, List,
  [], ◌∷◌, Text, ◌==◌, if◌then◌else◌,
}

abbrev pub starts_with : Text → Text → Bool
starts_with text [] = true
starts_with [] (p ∷ ps) = false
starts_with (b ∷ bs) (p ∷ ps) = (b == p) && starts_with bs ps

abbrev pub strip_prefix : Text → Text → Option Text
strip_prefix text [] = some text
strip_prefix [] (p ∷ ps) = none
strip_prefix (b ∷ bs) (p ∷ ps) = if b == p then strip_prefix bs ps else none

abbrev pub shift : Option ℕ → Option ℕ
shift none = none
shift (some i) = some (suc i)

-- `find(pattern)`, and `windows(n).position(|w| w == pattern)` for a pattern of n bytes: the first
-- index at which a pattern that is not empty stands.
unfoldable pub find : Text → Text → Option ℕ
find [] pattern = none
find (b ∷ bs) pattern =
    let rest = shift (find bs pattern) in if starts_with (b ∷ bs) pattern then some 0 else rest

abbrev pub contains : Text → Text → Bool
contains text pattern = elim (find text pattern) [ none ↦ false | some i ↦ true ]

-- `split` at one byte; a text without it is one part.
abbrev pub onto_part : ℕ → List Text → List Text
onto_part b [] = (b ∷ []) ∷ []
onto_part b (part ∷ rest) = (b ∷ part) ∷ rest

unfoldable pub split_at : ℕ → Text → List Text
split_at sep [] = [] ∷ []
split_at sep (b ∷ bs) =
    let rest = split_at sep bs in if b == sep then [] ∷ rest else onto_part b rest

-- What stands before the first pattern, and what after it if it is there.
abbrev pub split_once : Text → Text → Text × Option Text
split_once text pattern = elim (find text pattern) [
  | none ↦ (text, none)
  | some i ↦ (take i text, some (drop (i + length pattern) text))
]
