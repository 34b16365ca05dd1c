-- ===== src/Liberdus/Signature.antt =====
-- `verify_signature` of src/liberdus.rs, which the refresh of the node list leaves out.
use liberdus_proxy.Prelude.{Bool, List, Text, text_beq, some, Outcome, returned, ◌≡◌}
use liberdus_proxy.Liberdus.State.{Consensor}
use liberdus_proxy.Crypto.{Sodium, ShardusCrypto}
use liberdus_proxy.Crypto.Signed.{SodiumLaws}
use liberdus_proxy.Crypto.Response.{
  Signature, verify_response, signature_of, verify_response-signature_of,
}

pub record SignedNodeListResp (F : Type 0) : Type 0 where
  pub node_list : List (Consensor F)
  pub sign : Signature

-- `print` gives the JSON text of `{"nodeList": …}`.
module _ {F PK SK : Type 0} (sodium : Sodium PK SK) (print : List (Consensor F) → Text)
    (crypto : ShardusCrypto) where
  unfoldable pub verify_signature : SignedNodeListResp F → Outcome Bool
  verify_signature signed_payload =
      verify_response sodium crypto (print signed_payload.node_list) signed_payload.sign

  -- A node list is accepted exactly when the digest that is signed is its own.
  verify_signature_lem :
      (bytes : PK → Text) (laws : SodiumLaws sodium bytes) (nodes : List (Consensor F)) (sk : SK)
      (digest signed_digest : Text)
      → sodium.generichash (print nodes) 32 crypto.hash_key ≡ some digest
      → verify_signature (record {
        node_list = nodes;
        sign = signature_of sodium crypto bytes laws sk signed_digest;
      })
        ≡ returned (text_beq signed_digest digest)
  unfolding verify_signature
  verify_signature_lem bytes laws nodes sk digest signed_digest =
      verify_response-signature_of sodium crypto bytes laws (print nodes) digest signed_digest sk
