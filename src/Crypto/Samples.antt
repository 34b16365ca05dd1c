-- ===== src/Crypto/Samples.antt =====
-- A signature scheme for the tests: a key is a byte, and a signature is the key before the message.
use liberdus_proxy.Prelude.{
  ℕ, true, ==_iff, Option, none, some, [], ◌∷◌, Text, ◌==◌, if◌then◌else◌, refl,
}
use liberdus_proxy.Crypto.{Sodium}
use liberdus_proxy.Crypto.Signed.{SodiumLaws}

abbrev first_byte : Text → Option ℕ
first_byte [] = none
first_byte (b ∷ bs) = some b

abbrev open_with : ℕ → Text → Option Text
open_with key [] = none
open_with key (b ∷ bs) = if b == key then some bs else none

abbrev pub toy : Sodium ℕ ℕ
toy = record {
  init = true;
  hex_decode = λ s. some s;
  hex_encode = λ s. s;
  pk_from_slice = first_byte;
  sk_from_slice = first_byte;
  public_key = λ key. key;
  sign = λ m key. key ∷ m;
  verify = λ signed key. open_with key signed;
  generichash = λ input size key. some input;
}

abbrev pub key_bytes : ℕ → Text
key_bytes key = key ∷ []

pub toy_laws : SodiumLaws toy key_bytes
toy_laws = record {
  decode_encode = λ b. refl;
  opens = λ m key. rw ((==_iff key key).1 refl) refl;
  from_bytes = λ key. refl;
}
