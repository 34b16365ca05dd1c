-- ===== src/Websocket/Uuid.antt =====
-- `generate_uuid` of src/ws.rs: the socket's id, from the clock.
pub mod Shape
use Prim.Native.Nat.{bit_and, bit_or, bit_xor}
use liberdus_proxy.Prelude.{
  ℕ, zero, suc, ◌+◌, ◌-◌, ◌*◌, ◌/◌, ◌%◌, ◌^◌, [], ◌∷◌, ◌++◌, Text, codes, ltb, if◌then◌else◌,
}

abbrev pub lower_hex_digit : ℕ → ℕ
lower_hex_digit n = if ltb n 10 then b'0' + n else b'a' + (n - 10)

-- `{:02x}`: the wider formats of `from_be_bytes` are those of its bytes.
abbrev pub hex_byte : ℕ → Text
hex_byte b = lower_hex_digit (b / 16) ∷ lower_hex_digit (b % 16) ∷ []

unfoldable pub next_seed : ℕ → ℕ
next_seed seed = bit_xor (seed / 2 ^ 8) ((seed * 6364136223846793005) % 2 ^ 64)

unfoldable pub random_byte : ℕ → ℕ → ℕ
random_byte zero seed = seed % 256
random_byte (suc i) seed = random_byte i (next_seed seed)

-- `random_bytes[6]` and `random_bytes[8]` carry the version and the variant.
unfoldable pub version_byte : ℕ → ℕ
version_byte b = bit_or (bit_and b 0x0f) 0x40

unfoldable pub variant_byte : ℕ → ℕ
variant_byte b = bit_or (bit_and b 0x3f) 0x80

byte_at : ℕ → ℕ → Text
byte_at nanos i = hex_byte (random_byte i (nanos % 2 ^ 64))

-- At a time in nanoseconds, of which the low 64 bits are the seed.
unfoldable pub generate_uuid : ℕ → Text
unfolding random_byte byte_at
generate_uuid nanos =
    byte_at nanos 0
    ++ byte_at nanos 1
    ++ byte_at nanos 2
    ++ byte_at nanos 3
    ++ codes "-"
    ++ byte_at nanos 4
    ++ byte_at nanos 5
    ++ codes "-"
    ++ hex_byte (version_byte (random_byte 6 (nanos % 2 ^ 64)))
    ++ byte_at nanos 7
    ++ codes "-"
    ++ hex_byte (variant_byte (random_byte 8 (nanos % 2 ^ 64)))
    ++ byte_at nanos 9
    ++ codes "-"
    ++ byte_at nanos 10
    ++ byte_at nanos 11
    ++ byte_at nanos 12
    ++ byte_at nanos 13
    ++ byte_at nanos 14
    ++ byte_at nanos 15
