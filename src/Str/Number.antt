-- ===== src/Str/Number.antt =====
-- `parse::<usize>`.
use liberdus_proxy.Prelude.{
  ℕ, ◌+◌, ◌-◌, ◌*◌, ◌^◌, Bool, ◌&&◌, Option, none, some, [], ◌∷◌, Text, all, leb, ltb, ◌==◌,
  if◌then◌else◌,
}

abbrev pub is_digit : ℕ → Bool
is_digit c = leb b'0' c && leb c b'9'

unfoldable pub digits_value : ℕ → Text → ℕ
digits_value acc [] = acc
digits_value acc (c ∷ cs) = digits_value (acc * 10 + (c - b'0')) cs

-- At least one digit and nothing else.
unfoldable pub parse_digits : Text → Option ℕ
unfolding digits_value
parse_digits [] = none
parse_digits (c ∷ cs) = if all is_digit (c ∷ cs) then some (digits_value 0 (c ∷ cs)) else none

abbrev pub below : ℕ → Option ℕ → Option ℕ
below bound none = none
below bound (some n) = if ltb n bound then some n else none

unfoldable pub strip_plus : Text → Text
strip_plus [] = []
strip_plus (c ∷ cs) = if c == b'+' then cs else c ∷ cs

-- A leading "+" is taken; a value of 2 ^ 64 or more is an error.
unfoldable pub parse_usize : Text → Option ℕ
unfolding parse_digits strip_plus
parse_usize s = below (2 ^ 64) (parse_digits (strip_plus s))
