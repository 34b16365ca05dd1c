-- ===== src/Observer/Url/RoundTrip.antt =====
-- A text that is encoded and decoded again.
use liberdus_proxy.Prelude.{
  ==_iff, ℕ, ◌+◌, ◌*◌, ◌/◌, ◌%◌, ◌<◌, ◌≡◌, refl, ◌∙◌, ap, arith, Bool-cases, inl, inr, true, some,
  [], ◌∷◌, Text, All, ◌==◌,
}
use liberdus_proxy.Observer.Url.{
  from_hex_byte, push_char, push_hex, at_char, decode_from, push_at, next_place, url_decode,
  hex_digit, is_unreserved, encode_onto, url_encode,
}

from_hex_byte-hex_digit : (n : ℕ) → n < 16 → from_hex_byte (hex_digit n) ≡ some n
unfolding from_hex_byte
from_hex_byte-hex_digit n h = ground (arith, h)

decode_from-hex :
    (b : ℕ) (out : Text)
    → b < 256
    → decode_from (b'%' ∷ hex_digit (b / 16) ∷ hex_digit (b % 16) ∷ out) at_char
      ≡ push_char b (decode_from out at_char)
unfolding decode_from push_at next_place push_hex
decode_from-hex b out h =
    let high : from_hex_byte (hex_digit (b / 16)) ≡ some (b / 16) =
      from_hex_byte-hex_digit (b / 16) (omega (arith, h)) in
    let low : from_hex_byte (hex_digit (b % 16)) ≡ some (b % 16) =
      from_hex_byte-hex_digit (b % 16) (omega arith) in
    let whole : b / 16 * 16 + b % 16 ≡ b = omega arith in rw (high, low, whole) refl

decode_from-unreserved :
    (b : ℕ) (out : Text)
    → is_unreserved b ≡ true
    → decode_from (b ∷ out) at_char ≡ push_char b (decode_from out at_char)
unfolding decode_from push_at next_place push_char
decode_from-unreserved b out h = ground (arith, h)

decode_from-space :
    (out : Text) → decode_from (b'+' ∷ out) at_char ≡ push_char b' ' (decode_from out at_char)
unfolding decode_from push_at next_place push_char
decode_from-space out = refl

decode_from-encode_onto :
    (b : ℕ) (out : Text)
    → b < 256
    → decode_from (encode_onto b out) at_char ≡ push_char b (decode_from out at_char)
unfolding encode_onto
decode_from-encode_onto b out h = elim (Bool-cases (is_unreserved b)) [
  | inl e ↦ rw e (decode_from-unreserved b out e)
  | inr e ↦ elim (Bool-cases (b == b' ')) [
    | inl s ↦ let eq : b ≡ b' ' = (==_iff b b' ').0 s in rw (e, s) (rw eq (decode_from-space out))
    | inr s ↦ rw (e, s) (decode_from-hex b out h)
  ]
]

-- Every byte as the character of that code.
abbrev pub latin1 : Text → Text
latin1 [] = []
latin1 (b ∷ bs) = push_char b (latin1 bs)

url_decode-latin1 : (s : Text) → All (λ b. b < 256) s → url_decode (url_encode s) ≡ latin1 s
unfolding url_decode url_encode decode_from
url_decode-latin1 [] h = refl
url_decode-latin1 (b ∷ bs) (h, hs) =
    decode_from-encode_onto b (url_encode bs) h ∙ ap (push_char b) (url_decode-latin1 bs hs)

latin1-ascii : (s : Text) → All (λ b. b < 128) s → latin1 s ≡ s
unfolding push_char
latin1-ascii [] h = refl
latin1-ascii (b ∷ bs) (h, hs) = ground (arith, h, latin1-ascii bs hs)

All-wider : (s : Text) → All (λ b. b < 128) s → All (λ b. b < 256) s
All-wider [] h = tt
All-wider (b ∷ bs) (h, hs) = (omega (arith, h), All-wider bs hs)

-- A text of ASCII characters that is encoded decodes to itself.
pub url_decode-url_encode : (s : Text) → All (λ b. b < 128) s → url_decode (url_encode s) ≡ s
url_decode-url_encode s h = url_decode-latin1 s (All-wider s h) ∙ latin1-ascii s h
