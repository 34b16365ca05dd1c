-- ===== src/Str/Trim.antt =====
-- `trim` and `split_whitespace`: white space is Unicode's `White_Space`, in UTF-8.
pub mod Plain
use mathlib.Core.List.{reverse}
use liberdus_proxy.Prelude.{
  if◌then◌else◌, ℕ, Bool, ◌&&◌, ◌||◌, List, [], ◌∷◌, Text, leb, ◌==◌, if◌then◌else◌,
}

-- White space in one, two and three bytes.
abbrev pub is_space1 : ℕ → Bool
is_space1 a = (leb 9 a && leb a 13) || a == 32

abbrev pub is_space2 : ℕ → ℕ → Bool
is_space2 a b = a == 0xc2 && (b == 0x85 || b == 0xa0)

abbrev pub is_space3 : ℕ → ℕ → ℕ → Bool
is_space3 a b c =
    (a == 0xe1 && b == 0x9a && c == 0x80)
    || (a == 0xe2
        && b == 0x80
        && ((leb 0x80 c && leb c 0x8a) || c == 0xa8 || c == 0xa9 || c == 0xaf))
    || (a == 0xe2 && b == 0x81 && c == 0x9f)
    || (a == 0xe3 && b == 0x80 && c == 0x80)

unfoldable pub trim_start : Text → Text
trim_start [] = []
trim_start (a ∷ []) = if is_space1 a then [] else a ∷ []
trim_start (a ∷ b ∷ []) =
    let rest = trim_start (b ∷ []) in
    if is_space1 a then rest else if is_space2 a b then [] else a ∷ b ∷ []
trim_start (a ∷ b ∷ c ∷ s) =
    let rest1 = trim_start (b ∷ c ∷ s) in
    let rest2 = trim_start (c ∷ s) in
    let rest3 = trim_start s in
    if is_space1 a
    then rest1
    else if is_space2 a b
    then rest2
    else if is_space3 a b c
    then rest3
    else a ∷ b ∷ c ∷ s

-- The same from the end, on the reversed bytes.
trim_back : Text → Text
trim_back [] = []
trim_back (a ∷ []) = if is_space1 a then [] else a ∷ []
trim_back (b ∷ a ∷ []) =
    let rest = trim_back (a ∷ []) in
    if is_space1 b then rest else if is_space2 a b then [] else b ∷ a ∷ []
trim_back (c ∷ b ∷ a ∷ s) =
    let rest1 = trim_back (b ∷ a ∷ s) in
    let rest2 = trim_back (a ∷ s) in
    let rest3 = trim_back s in
    if is_space1 c
    then rest1
    else if is_space2 b c
    then rest2
    else if is_space3 a b c
    then rest3
    else c ∷ b ∷ a ∷ s

unfoldable pub trim : Text → Text
unfolding trim_start trim_back
trim s = reverse (trim_back (reverse (trim_start s)))

-- A word that has been read, its last byte first, goes before the rest unless it is empty.
emit : Text → List Text → List Text
emit [] rest = rest
emit (b ∷ bs) rest = reverse (b ∷ bs) ∷ rest

words : Text → Text → List Text
words [] word = emit word []
words (a ∷ []) word = if is_space1 a then emit word [] else emit (a ∷ word) []
words (a ∷ b ∷ []) word =
    let rest = words (b ∷ []) in
    if is_space1 a
    then emit word (rest [])
    else if is_space2 a b
    then emit word []
    else rest (a ∷ word)
words (a ∷ b ∷ c ∷ s) word =
    let rest1 = words (b ∷ c ∷ s) in
    let rest2 = words (c ∷ s) in
    let rest3 = words s in
    if is_space1 a
    then emit word (rest1 [])
    else if is_space2 a b
    then emit word (rest2 [])
    else if is_space3 a b c
    then emit word (rest3 [])
    else rest1 (a ∷ word)

unfoldable pub split_whitespace : Text → List Text
unfolding emit words
split_whitespace s = words s []
