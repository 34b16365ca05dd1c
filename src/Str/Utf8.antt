-- ===== src/Str/Utf8.antt =====
-- `std::str::from_utf8(bytes).is_ok()`.
use liberdus_proxy.Prelude.{
  ℕ, zero, suc, Bool, true, false, ◌&&◌, ◌||◌, [], ◌∷◌, Text, leb, ltb, ◌==◌, if◌then◌else◌,
}

-- How many bytes follow a first byte, and the range of the one that comes next.
follow : ℕ → ℕ
follow b = if ltb b 0x80 then 0 else if leb b 0xdf then 1 else if leb b 0xef then 2 else 3

lowest : ℕ → ℕ
lowest b = if b == 0xe0 then 0xa0 else if b == 0xf0 then 0x90 else 0x80

highest : ℕ → ℕ
highest b = if b == 0xed then 0x9f else if b == 0xf4 then 0x8f else 0xbf

is_first : ℕ → Bool
is_first b = ltb b 0x80 || (leb 0xc2 b && leb b 0xf4)

scan : ℕ → ℕ → ℕ → Text → Bool
scan zero lo hi [] = true
scan (suc k) lo hi [] = false
scan zero lo hi (b ∷ bs) =
    let rest = scan (follow b) (lowest b) (highest b) bs in if is_first b then rest else false
scan (suc k) lo hi (b ∷ bs) =
    let rest = scan k 0x80 0xbf bs in if leb lo b && leb b hi then rest else false

unfoldable pub is_utf8 : Text → Bool
unfolding follow lowest highest is_first scan
is_utf8 bytes = scan 0 0x80 0xbf bytes
