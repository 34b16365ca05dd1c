-- ===== src/Crypto/Tests.antt =====
-- Two messages that are the same bytes, signed and verified.
use liberdus_proxy.Prelude.{Text, codes, ok, returned, refl, ◌≡◌, text_beq}
use liberdus_proxy.Crypto.{hex, buffer, sign, verify}
use liberdus_proxy.Crypto.Signed.{verify-sign}
use liberdus_proxy.Crypto.Samples.{toy, key_bytes, toy_laws}

verify-sign_example :
    (sig : Text) × (sign toy (hex (codes "ab")) 7 ≡ ok sig)
    × (verify toy (buffer (codes "ab")) sig (toy.public_key 7)
        ≡ returned (text_beq (codes "ab") (codes "ab")))
verify-sign_example =
    verify-sign toy key_bytes toy_laws (hex (codes "ab")) (buffer (codes "ab")) (codes "ab")
      (codes "ab") 7 refl refl
