-- ===== src/Crypto/Signed.antt =====
-- Signing and verifying.
use liberdus_proxy.Prelude.{
  Option, none, some, Text, text_beq, ◌≡◌, refl, arith, ok, Outcome, returned,
}
use liberdus_proxy.Crypto.{
  ShardusCrypto, hash, hex_format, in_format, Sodium, HexStringOrBuffer, hex, buffer, bytes_of,
  sign, sign_bytes, verify, is_opened, unwrap,
}

-- What sodiumoxide documents: hex decodes what it encoded, a signed message opens with the key that
-- belongs to the signer's, and a key's bytes give the key.
pub record SodiumLaws {PK SK : Type 0} (sodium : Sodium PK SK) (bytes : PK → Text) : Type 0 where
  pub decode_encode : (b : Text) → sodium.hex_decode (sodium.hex_encode b) ≡ some b
  pub opens :
      (m : Text) (sk : SK) → sodium.verify (sodium.sign m sk) (sodium.public_key sk) ≡ some m
  pub from_bytes : (pk : PK) → sodium.pk_from_slice (bytes pk) ≡ some pk

unwrap-some : (o : Option Text) (b : Text) → unwrap o ≡ returned b → o ≡ some b
unwrap-some none b e = ground (arith, e)
unwrap-some (some a) b e = cc

module _ {PK SK : Type 0} (sodium : Sodium PK SK) (bytes : PK → Text)
    (laws : SodiumLaws sodium bytes) where
  sign-bytes :
      (m : HexStringOrBuffer) (b : Text) (sk : SK)
      → bytes_of sodium m ≡ returned b
      → sign sodium m sk ≡ ok (sodium.sign b sk)
  unfolding sign sign_bytes
  sign-bytes (hex s) b sk e = rw (unwrap-some (sodium.hex_decode s) b e) refl
  sign-bytes (buffer a) b sk e = let same : Outcome.returned a ≡ returned b = e in cc

  -- A signed message opens for the signer's public key, and verifies another message exactly when
  -- the two are the same bytes.
  pub verify-sign :
      (m m' : HexStringOrBuffer) (b b' : Text) (sk : SK)
      → bytes_of sodium m ≡ returned b
      → bytes_of sodium m' ≡ returned b'
      → (sig : Text) × (sign sodium m sk ≡ ok sig)
        × (verify sodium m' sig (sodium.public_key sk) ≡ returned (text_beq b b'))
  unfolding verify is_opened
  verify-sign m m' b b' sk e e' =
      (sodium.sign b sk, sign-bytes m b sk e, rw (e', laws.opens b sk) refl)

  pub verify-digest :
      (digest signed_digest : Text) (sk : SK)
      → verify sodium
          (hex (sodium.hex_encode digest))
          (sodium.sign signed_digest sk)
          (sodium.public_key sk)
        ≡ returned (text_beq signed_digest digest)
  unfolding verify is_opened
  verify-digest digest signed_digest sk =
      rw (laws.decode_encode digest, laws.opens signed_digest sk) refl

pub hash-hex :
    {PK SK : Type 0} (sodium : Sodium PK SK) (crypto : ShardusCrypto) (input digest : Text)
    → sodium.generichash input 32 crypto.hash_key ≡ some digest
    → hash sodium crypto input hex_format ≡ returned (hex (sodium.hex_encode digest))
unfolding hash in_format
hash-hex sodium crypto input digest e = rw e refl
