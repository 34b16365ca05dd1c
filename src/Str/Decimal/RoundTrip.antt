-- ===== src/Str/Decimal/RoundTrip.antt =====
-- A printed number, read again.
use native.Mathlib.Nat.{pow-suc}
use liberdus_proxy.Prelude.{
  is_empty, ℕ, zero, suc, ◌+◌, ◌-◌, ◌*◌, ◌/◌, ◌%◌, ◌^◌, ◌<◌, ◌≡◌, refl, ap, ◌∙◌, true, false, some,
  [], ◌∷◌, all, arith, Text, ltb, ◌==◌, Bool-cases, inl, inr,
}
use liberdus_proxy.Str.Decimal.{digits_onto, decimal}
use liberdus_proxy.Str.Number.{is_digit, digits_value, parse_digits, below, strip_plus, parse_usize}

digits_value-digit :
    (n d : ℕ) (acc : Text) → digits_value n ((b'0' + d) ∷ acc) ≡ digits_value (n * 10 + d) acc
unfolding digits_value
digits_value-digit n d acc =
    let e : b'0' + d - b'0' ≡ d = omega arith in ap (λ x. digits_value (n * 10 + x) acc) e

digits_value-digits_onto :
    (left n : ℕ) (acc : Text)
    → n < 10 ^ left
    → digits_value 0 (digits_onto left n acc) ≡ digits_value n acc
unfolding digits_onto
digits_value-digits_onto zero n acc h = let z : n ≡ 0 = omega (arith, h) in rw z refl
digits_value-digits_onto (suc left) n acc h = elim (Bool-cases (ltb n 10)) [
  | inl e ↦ rw e (digits_value-digit 0 n acc ∙ ap (λ x. digits_value x acc) (omega arith))
  | inr e ↦ rw e (
      digits_value-digits_onto left (n / 10) ((b'0' + n % 10) ∷ acc)
        (omega (arith, h, pow-suc 10 left))
      ∙ digits_value-digit (n / 10) (n % 10) acc
      ∙ ap (λ x. digits_value x acc) (omega arith))
]

all-digits_onto :
    (left n : ℕ) (acc : Text)
    → all is_digit acc ≡ true
    → all is_digit (digits_onto left n acc) ≡ true
unfolding digits_onto
all-digits_onto zero n acc h = h
all-digits_onto (suc left) n acc h =
    ground (arith, all-digits_onto left (n / 10) ((b'0' + n % 10) ∷ acc))

is_empty-digits_onto : (left n b : ℕ) (acc : Text) → is_empty (digits_onto left n (b ∷ acc)) ≡ false
unfolding digits_onto
is_empty-digits_onto zero n b acc = refl
is_empty-digits_onto (suc left) n b acc =
    ground (arith, is_empty-digits_onto left (n / 10) (b'0' + n % 10) (b ∷ acc))

is_empty-decimal : (n : ℕ) → is_empty (decimal n) ≡ false
unfolding decimal digits_onto
is_empty-decimal n = ground (arith, is_empty-digits_onto 19 (n / 10) (b'0' + n % 10) [])

parse_digits-strip_plus :
    (t : Text)
    → is_empty t ≡ false
    → all is_digit t ≡ true
    → parse_digits (strip_plus t) ≡ some (digits_value 0 t)
unfolding parse_digits strip_plus
parse_digits-strip_plus [] e h = absurd (ground arith)
parse_digits-strip_plus (c ∷ cs) e h =
    let digit : (c == b'+') ≡ false = ground arith in rw (digit, h) refl

all-decimal : (n : ℕ) → all is_digit (decimal n) ≡ true
unfolding decimal
all-decimal n = all-digits_onto 20 n [] refl

digits_value-decimal : (n : ℕ) → n < 10 ^ 20 → digits_value 0 (decimal n) ≡ n
unfolding decimal digits_value
digits_value-decimal n h = digits_value-digits_onto 20 n [] h

below-some : (n : ℕ) → n < 2 ^ 64 → below (2 ^ 64) (some n) ≡ some n
below-some n h = ground arith

-- A number below 2 ^ 64 that is printed is read again as itself.
pub parse_usize-decimal : (n : ℕ) → n < 2 ^ 64 → parse_usize (decimal n) ≡ some n
unfolding parse_usize
parse_usize-decimal n h =
    let digits : all is_digit (decimal n) ≡ true = all-decimal n in
    let value : digits_value 0 (decimal n) ≡ n = digits_value-decimal n (omega arith) in
    rw (parse_digits-strip_plus (decimal n) (is_empty-decimal n) digits, value) (below-some n h)
