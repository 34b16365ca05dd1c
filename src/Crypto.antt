-- ===== src/Crypto.antt =====
-- src/crypto.rs over sodiumoxide, whose functions are parameters.
pub mod Signed
pub mod Response
pub mod Samples
mod Tests
use liberdus_proxy.Prelude.{
  ℕ, ◌/◌, ◌%◌, ◌+◌, ◌-◌, Bool, true, false, Option, none, some, List, [], ◌∷◌, ◌++◌, Text, codes,
  text_beq, ltb, if◌then◌else◌, Result, ok, err, Outcome, returned, panicked,
}

-- sodiumoxide: `hex`, the keys of `crypto::sign` and `sign`, `verify` there, and `generichash`, with
-- what each gives on an input that it refuses.
pub record Sodium (PublicKey SecretKey : Type 0) : Type 0 where
  pub init : Bool
  pub hex_decode : Text → Option Text
  pub hex_encode : Text → Text
  pub pk_from_slice : Text → Option PublicKey
  pub sk_from_slice : Text → Option SecretKey
  pub public_key : SecretKey → PublicKey
  pub sign : Text → SecretKey → Text
  pub verify : Text → PublicKey → Option Text
  -- The input, the digest's length and the key.
  pub generichash : Text → ℕ → Text → Option Text

pub data Format : Type 0 where
  hex_format buffer_format : Format

pub data HexStringOrBuffer : Type 0 where
  hex buffer : Text → HexStringOrBuffer

pub record KeyPair (PublicKey SecretKey : Type 0) : Type 0 where
  pub public_key : PublicKey
  pub secret_key : SecretKey

pub record ShardusCrypto : Type 0 where
  pub hash_key : Text

-- `unwrap` and `expect`
abbrev pub unwrap {ℓ} : {A : Type ℓ} → Option A → Outcome A
unwrap none = panicked
unwrap (some a) = returned a

abbrev pub then_unwrap {ℓ κ} : {A : Type ℓ} {B : Type κ} → Outcome A → (A → Outcome B) → Outcome B
then_unwrap panicked f = panicked
then_unwrap (returned a) f = f a

-- `{:02X}` of each byte.
abbrev pub upper_hex_digit : ℕ → ℕ
upper_hex_digit n = if ltb n 10 then b'0' + n else b'A' + (n - 10)

unfoldable pub upper_hex : Text → Text
upper_hex [] = []
upper_hex (b ∷ bs) = upper_hex_digit (b / 16) ∷ upper_hex_digit (b % 16) ∷ upper_hex bs

-- `Display`
unfoldable pub to_string : HexStringOrBuffer → Text
to_string (hex s) = s
to_string (buffer bytes) = upper_hex bytes

module _ {PK SK : Type 0} (sodium : Sodium PK SK) where
  unfoldable pub new : Text → Outcome ShardusCrypto
  new key =
      if sodium.init
      then then_unwrap (unwrap (sodium.hex_decode key)) (λ k. returned (record { hash_key = k }))
      else panicked

  -- The bytes of a text in one of the two forms.
  abbrev pub bytes_of : HexStringOrBuffer → Outcome Text
  bytes_of (hex s) = unwrap (sodium.hex_decode s)
  bytes_of (buffer bytes) = returned bytes

  unfoldable pub get_key_pair_using_sk : HexStringOrBuffer → Outcome (KeyPair PK SK)
  get_key_pair_using_sk sk = then_unwrap (bytes_of sk) λ bytes.
      then_unwrap (unwrap (sodium.sk_from_slice bytes))
        λ key. returned (record { public_key = sodium.public_key key; secret_key = key })

  unfoldable pub get_pk : HexStringOrBuffer → Outcome PK
  get_pk pk = then_unwrap (bytes_of pk) λ bytes. unwrap (sodium.pk_from_slice bytes)

  in_format : Format → Text → HexStringOrBuffer
  in_format hex_format digest = hex (sodium.hex_encode digest)
  in_format buffer_format digest = buffer digest

  unfoldable pub hash : ShardusCrypto → Text → Format → Outcome HexStringOrBuffer
  unfolding in_format
  hash crypto input fmt =
      then_unwrap (unwrap (sodium.generichash input 32 crypto.hash_key))
        λ digest. returned (in_format fmt digest)

  sign_bytes : Option Text → SK → Result Text Text
  sign_bytes none sk = err (codes "Invalid hex format for input.")
  sign_bytes (some input) sk = ok (sodium.sign input sk)

  unfoldable pub sign : HexStringOrBuffer → SK → Result Text Text
  unfolding sign_bytes
  sign (hex s) sk = sign_bytes (sodium.hex_decode s) sk
  sign (buffer bytes) sk = sign_bytes (some bytes) sk

  is_opened : Option Text → Text → Bool
  is_opened none msg = false
  is_opened (some opened_msg) msg = text_beq opened_msg msg

  unfoldable pub verify : HexStringOrBuffer → Text → PK → Outcome Bool
  unfolding is_opened
  verify msg sig pk =
      then_unwrap (bytes_of msg) λ msg_buf. returned (is_opened (sodium.verify sig pk) msg_buf)
