-- ===== src/Crypto/Response.antt =====
-- What `verify_signature` of src/archivers.rs and of src/liberdus.rs have in common.
use liberdus_proxy.Prelude.{Bool, Text, text_beq, Outcome, returned, some, ◌≡◌}
use liberdus_proxy.Crypto.{Sodium, ShardusCrypto, hex_format, hash, verify, unwrap, then_unwrap}
use liberdus_proxy.Crypto.Signed.{SodiumLaws, hash-hex, verify-digest}

pub record Signature : Type 0 where
  pub owner : Text
  pub sig : Text

module _ {PK SK : Type 0} (sodium : Sodium PK SK) (crypto : ShardusCrypto) where
  -- The signature of the digest of a response's text. The two `unwrap`s panic.
  unfoldable pub verify_response : Text → Signature → Outcome Bool
  verify_response response signature =
      then_unwrap (hash sodium crypto response hex_format) λ digest.
        then_unwrap (unwrap (sodium.hex_decode signature.owner)) λ owner.
          then_unwrap (unwrap (sodium.pk_from_slice owner)) λ pk.
            then_unwrap (unwrap (sodium.hex_decode signature.sig))
              λ sig. verify sodium digest sig pk

  module _ (bytes : PK → Text) (laws : SodiumLaws sodium bytes) where
    abbrev pub signature_of : SK → Text → Signature
    signature_of sk digest = record {
      owner = sodium.hex_encode (bytes (sodium.public_key sk));
      sig = sodium.hex_encode (sodium.sign digest sk);
    }

    -- A signature is that of a response exactly when the digest that it signs is the response's.
    pub verify_response-signature_of :
        (response digest signed_digest : Text) (sk : SK)
        → sodium.generichash response 32 crypto.hash_key ≡ some digest
        → verify_response response (signature_of sk signed_digest)
          ≡ returned (text_beq signed_digest digest)
    unfolding verify_response
    verify_response-signature_of response digest signed_digest sk hashed =
        rw
          (
            hash-hex sodium crypto response digest hashed,
            laws.decode_encode (bytes (sodium.public_key sk)),
            laws.from_bytes (sodium.public_key sk),
            laws.decode_encode (sodium.sign signed_digest sk),
          )
          (verify-digest sodium bytes laws digest signed_digest sk)
