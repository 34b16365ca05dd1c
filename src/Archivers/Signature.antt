-- ===== src/Archivers/Signature.antt =====
-- `verify_signature` of src/archivers.rs, and what the task of one asked archiver answers with it.
use liberdus_proxy.Prelude.{
  Bool, Option, none, some, List, Text, text_beq, if◌then◌else◌, Outcome, returned, panicked, ◌≡◌,
  refl,
}
use liberdus_proxy.Liberdus.State.{Archiver}
use liberdus_proxy.Crypto.{Sodium, ShardusCrypto, then_unwrap}
use liberdus_proxy.Crypto.Signed.{SodiumLaws}
use liberdus_proxy.Crypto.Response.{
  Signature, verify_response, signature_of, verify_response-signature_of,
}

pub record SignedArchiverListResponse : Type 0 where
  pub active_archivers : List Archiver
  pub sign : Signature

-- The request to one archiver: no response, a body that cannot be read, one that is no signed list,
-- or the list.
pub data ArchiverFetch : Type 0 where
  unreachable unread malformed : ArchiverFetch
  signed : SignedArchiverListResponse → ArchiverFetch

-- `print` gives the JSON text of `{"activeArchivers": …}`.
module _ {PK SK : Type 0} (sodium : Sodium PK SK) (print : List Archiver → Text)
    (crypto : ShardusCrypto) where
  unfoldable pub verify_signature : SignedArchiverListResponse → Outcome Bool
  verify_signature signed_payload =
      verify_response sodium crypto (print signed_payload.active_archivers) signed_payload.sign

  -- What the task sends; a panic ends it before it sends.
  unfoldable pub answer_of : ArchiverFetch → Outcome (Option (List Archiver))
  answer_of unreachable = returned none
  answer_of unread = panicked
  answer_of malformed = returned none
  answer_of (signed body) =
      then_unwrap (verify_signature body)
        λ is_valid. returned (if is_valid then some body.active_archivers else none)

  module _ (bytes : PK → Text) (laws : SodiumLaws sodium bytes) where
    -- A list with a signature by any key, which the response itself names, is accepted exactly when
    -- the digest that is signed is the list's: that the key is one of an archiver is not looked at.
    pub answer_of-signed :
        (archivers : List Archiver) (sk : SK) (digest signed_digest : Text)
        → sodium.generichash (print archivers) 32 crypto.hash_key ≡ some digest
        → answer_of (
            signed (record {
              active_archivers = archivers;
              sign = signature_of sodium crypto bytes laws sk signed_digest;
            }))
          ≡ returned (if text_beq signed_digest digest then some archivers else none)
    unfolding answer_of verify_signature
    answer_of-signed archivers sk digest signed_digest hashed =
        rw
          (verify_response-signature_of sodium crypto bytes laws (print archivers) digest
            signed_digest sk hashed)
          refl
