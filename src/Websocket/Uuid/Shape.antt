-- ===== src/Websocket/Uuid/Shape.antt =====
-- The form of a generated id.
use liberdus_proxy.Prelude.{
  ℕ, zero, suc, ◌/◌, ◌%◌, ◌^◌, ◌<◌, ◌≤◌, ◌≡◌, refl, ◌⊎◌, arith, Bool, true, ◌&&◌, List, [], ◌∷◌,
  Text, ltb, leb, ◌==◌, ==_iff,
}
use liberdus_proxy.Websocket.Uuid.{
  lower_hex_digit, next_seed, random_byte, version_byte, variant_byte, byte_at, generate_uuid,
}

all_below : ℕ → (ℕ → Bool) → Bool
all_below zero p = true
all_below (suc n) p = p n && all_below n p

all_below-lt : (n : ℕ) (p : ℕ → Bool) (x : ℕ) → all_below n p ≡ true → x < n → p x ≡ true
unfolding all_below
all_below-lt zero p x h lt = absurd (omega arith)
all_below-lt (suc n) p x h lt = ground (arith, all_below-lt n p x)

versions : all_below 256 (λ b. version_byte b / 16 == 4) ≡ true
unfolding all_below version_byte
versions = refl

abbrev is_variant : ℕ → Bool
is_variant n = leb 8 n && ltb n 12

variants : all_below 256 (λ b. is_variant (variant_byte b / 16)) ≡ true
unfolding all_below variant_byte
variants = refl

random_byte-lt : (i seed : ℕ) → random_byte i seed < 256
unfolding random_byte
random_byte-lt zero seed = omega arith
random_byte-lt (suc i) seed = random_byte-lt i (next_seed seed)

-- What may stand at a place of an id of version 4: a hexadecimal digit in lower case, the digit of
-- the variant, or one character.
pub data Place : Type 0 where
  digit variant : Place
  exactly : ℕ → Place

abbrev pub IsLowerHex : ℕ → Type 0
IsLowerHex c = ((b'0' ≤ c) × (c ≤ b'9')) ⊎ ((b'a' ≤ c) × (c ≤ b'f'))

abbrev pub FitsAt : Place → ℕ → Type 0
FitsAt digit c = IsLowerHex c
FitsAt variant c = ((b'8' ≤ c) × (c ≤ b'9')) ⊎ ((b'a' ≤ c) × (c ≤ b'b'))
FitsAt (exactly d) c = c ≡ d

abbrev pub Fits : List Place → Text → Type 0
Fits [] [] = Unit
Fits (p ∷ ps) (c ∷ cs) = FitsAt p c × Fits ps cs
Fits _ _ = ⊥

IsLowerHex-digit : (n : ℕ) → n < 16 → IsLowerHex (lower_hex_digit n)
IsLowerHex-digit n h = ground (arith, h)

high : (b : ℕ) → b < 256 → IsLowerHex (lower_hex_digit (b / 16))
high b h = IsLowerHex-digit (b / 16) (omega arith)

low : (b : ℕ) → IsLowerHex (lower_hex_digit (b % 16))
low b = IsLowerHex-digit (b % 16) (omega arith)

version-digit : (b : ℕ) → b < 256 → lower_hex_digit (version_byte b / 16) ≡ b'4'
version-digit b h =
    let four : version_byte b / 16 ≡ 4 =
      (==_iff (version_byte b / 16) 4).0
        (all_below-lt 256 (λ b. version_byte b / 16 == 4) b versions h) in
    rw four refl

variant-digit : (b : ℕ) → b < 256 → FitsAt variant (lower_hex_digit (variant_byte b / 16))
variant-digit b h =
    let is : is_variant (variant_byte b / 16) ≡ true =
      all_below-lt 256 (λ b. is_variant (variant_byte b / 16)) b variants h in
    ground (arith, is)

abbrev pub version4 : List Place
version4 =
    digit
    ∷ digit
    ∷ digit
    ∷ digit
    ∷ digit
    ∷ digit
    ∷ digit
    ∷ digit
    ∷ exactly b'-'
    ∷ digit
    ∷ digit
    ∷ digit
    ∷ digit
    ∷ exactly b'-'
    ∷ exactly b'4'
    ∷ digit
    ∷ digit
    ∷ digit
    ∷ exactly b'-'
    ∷ variant
    ∷ digit
    ∷ digit
    ∷ digit
    ∷ exactly b'-'
    ∷ digit
    ∷ digit
    ∷ digit
    ∷ digit
    ∷ digit
    ∷ digit
    ∷ digit
    ∷ digit
    ∷ digit
    ∷ digit
    ∷ digit
    ∷ digit
    ∷ []

-- Whatever the clock says, the id has 36 characters, in the form of a UUID of version 4.
pub generate_uuid-Fits : (nanos : ℕ) → Fits version4 (generate_uuid nanos)
unfolding generate_uuid byte_at
generate_uuid-Fits nanos =
    let seed = nanos % 2 ^ 64 in
    let v = random_byte 6 seed in
    let w = random_byte 8 seed in
    let h = λ (i : ℕ). high (random_byte i seed) (random_byte-lt i seed) in
    let l = λ (i : ℕ). low (random_byte i seed) in
    (
      h 0,
      (
        l 0,
        (
          h 1,
          (
            l 1,
            (
              h 2,
              (
                l 2,
                (
                  h 3,
                  (
                    l 3,
                    (
                      refl,
                      (
                        h 4,
                        (
                          l 4,
                          (
                            h 5,
                            (
                              l 5,
                              (
                                refl,
                                (
                                  version-digit v (random_byte-lt 6 seed),
                                  (
                                    low (version_byte v),
                                    (
                                      h 7,
                                      (
                                        l 7,
                                        (
                                          refl,
                                          (
                                            variant-digit w (random_byte-lt 8 seed),
                                            (
                                              low (variant_byte w),
                                              (
                                                h 9,
                                                (
                                                  l 9,
                                                  (
                                                    refl,
                                                    (
                                                      h 10,
                                                      (
                                                        l 10,
                                                        (
                                                          h 11,
                                                          (
                                                            l 11,
                                                            (
                                                            h 12,
                                                            (
                                                            l 12,
                                                            (
                                                            h 13,
                                                            (
                                                            l 13,
                                                            (h 14, (l 14, (h 15, (l 15, tt)))),
                                                            ),
                                                            ),
                                                            ),
                                                            ),
                                                          ),
                                                        ),
                                                      ),
                                                    ),
                                                  ),
                                                ),
                                              ),
                                            ),
                                          ),
                                        ),
                                      ),
                                    ),
                                  ),
                                ),
                              ),
                            ),
                          ),
                        ),
                      ),
                    ),
                  ),
                ),
              ),
            ),
          ),
        ),
      ),
    )
