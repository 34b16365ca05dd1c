-- ===== src/Observer/Url.antt =====
-- `url_decode` and `url_encode` of src/observer_gateway.rs, and the tests on hex digits.
pub mod RoundTrip
use liberdus_proxy.Prelude.{
  ℕ, ◌+◌, ◌-◌, ◌*◌, ◌/◌, ◌%◌, Bool, true, false, not, ◌&&◌, ◌||◌, Option, none, some, [], ◌∷◌, ◌++◌,
  Text, codes, length, all, is_empty, drop, leb, ltb, ◌==◌, if◌then◌else◌,
}
use liberdus_proxy.Str.Find.{starts_with}

abbrev pub is_between : ℕ → ℕ → ℕ → Bool
is_between low high b = leb low b && leb b high

unfoldable pub from_hex_byte : ℕ → Option ℕ
from_hex_byte b =
    if is_between b'0' b'9' b
    then some (b - b'0')
    else if is_between b'a' b'f' b
    then some (b - b'a' + 10)
    else if is_between b'A' b'F' b
    then some (b - b'A' + 10)
    else none

unfoldable pub is_hex : Text → Bool
is_hex s =
    not (is_empty s)
    && all (λ b. is_between b'0' b'9' b || is_between b'a' b'f' b || is_between b'A' b'F' b) s

unfoldable pub is_eth_address : Text → Bool
is_eth_address s = length s == 42 && starts_with s (codes "0x") && is_hex (drop 2 s)

-- `out.push(b as char)`: a byte from 128 on is a character of two bytes.
unfoldable pub push_char : ℕ → Text → Text
push_char b out = if ltb b 128 then b ∷ out else (0xc0 + b / 64) ∷ (0x80 + b % 64) ∷ out

-- Where the loop is: before a character, behind a "%", or behind a "%" and one byte.
pub data Place : Type 0 where
  at_char at_hi : Place
  at_lo : ℕ → Place

next_place : ℕ → Place → Place
next_place b at_char = if b == b'%' then at_hi else at_char
next_place b at_hi = at_lo b
next_place b (at_lo hi) = at_char

push_hex : Option ℕ → Option ℕ → Text → Text
push_hex (some h) (some l) out = push_char (h * 16 + l) out
push_hex _ _ out = out

push_at : ℕ → Place → Text → Text
push_at b at_char out = if b == b'+' then b' ' ∷ out else if b == b'%' then out else push_char b out
push_at b at_hi out = out
push_at b (at_lo hi) out = push_hex (from_hex_byte hi) (from_hex_byte b) out

unfoldable pub decode_from : Text → Place → Text
unfolding next_place push_hex push_at
decode_from [] place = []
decode_from (b ∷ bs) place = push_at b place (decode_from bs (next_place b place))

unfoldable pub url_decode : Text → Text
unfolding decode_from
url_decode s = decode_from s at_char

-- `{:X}` of one hex digit.
abbrev pub hex_digit : ℕ → ℕ
hex_digit n = if ltb n 10 then b'0' + n else b'A' + (n - 10)

abbrev pub is_unreserved : ℕ → Bool
is_unreserved b =
    is_between b'A' b'Z' b
    || is_between b'a' b'z' b
    || is_between b'0' b'9' b
    || b == b'-'
    || b == b'_'
    || b == b'.'
    || b == b'~'

unfoldable pub encode_onto : ℕ → Text → Text
encode_onto b out =
    if is_unreserved b
    then b ∷ out
    else if b == b' '
    then b'+' ∷ out
    else b'%' ∷ hex_digit (b / 16) ∷ hex_digit (b % 16) ∷ out

unfoldable pub url_encode : Text → Text
unfolding encode_onto
url_encode [] = []
url_encode (b ∷ bs) = encode_onto b (url_encode bs)
