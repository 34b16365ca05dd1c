-- ===== src/Str/Decimal.antt =====
-- `{}` of an unsigned integer of at most 64 bits: it has at most 20 digits.
pub mod RoundTrip
use liberdus_proxy.Prelude.{ℕ, zero, suc, ◌+◌, ◌%◌, [], ◌∷◌, Text, ltb, if◌then◌else◌}
use Prim.Native.Nat.{◌/◌}

unfoldable pub digits_onto : ℕ → ℕ → Text → Text
digits_onto zero n acc = acc
digits_onto (suc left) n acc =
    let rest = digits_onto left (n / 10) ((b'0' + n % 10) ∷ acc) in
    if ltb n 10 then (b'0' + n) ∷ acc else rest

unfoldable pub decimal : ℕ → Text
unfolding digits_onto
decimal n = digits_onto 20 n []
