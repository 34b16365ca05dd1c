-- ===== src/Tls/Tests.antt =====
-- Files as lists of certificates and keys.
use liberdus_proxy.Prelude.{
  List, [], ◌∷◌, Text, codes, text_beq, ok, err, ◌≡◌, refl, ◌↔◌, if◌then◌else◌,
}
use liberdus_proxy.Tls.{PrivateKeyDer, pkcs8, Rustls, no_private_keys, configure_tls}
use liberdus_proxy.Tls.Keys.{ReadsAll, Serves, configure_tls-ok_iff}

data Pem : Type 0 where
  cert key rsa_key : Text → Pem

abbrev certs_in : List Pem → List Text
certs_in [] = []
certs_in (cert c ∷ items) = c ∷ certs_in items
certs_in (key k ∷ items) = certs_in items
certs_in (rsa_key k ∷ items) = certs_in items

abbrev keys_in : List Pem → List Text
keys_in [] = []
keys_in (cert c ∷ items) = keys_in items
keys_in (key k ∷ items) = k ∷ keys_in items
keys_in (rsa_key k ∷ items) = keys_in items

abbrev rsa_keys_in : List Pem → List Text
rsa_keys_in [] = []
rsa_keys_in (cert c ∷ items) = rsa_keys_in items
rsa_keys_in (key k ∷ items) = rsa_keys_in items
rsa_keys_in (rsa_key k ∷ items) = k ∷ rsa_keys_in items

abbrev files : Text → List Pem
files path =
    if text_beq path (codes "cert.pem")
    then cert (codes "c") ∷ []
    else if text_beq path (codes "rsa.pem")
    then rsa_key (codes "r") ∷ []
    else rsa_key (codes "r") ∷ key (codes "k") ∷ []

abbrev some_rustls : Rustls (List Pem) (List Text × PrivateKeyDer)
some_rustls = record {
  open_file = λ path. ok (files path);
  certs = λ r. (ok (certs_in r), []);
  pkcs8_private_keys = λ r. (ok (keys_in r), []);
  rsa_private_keys = λ r. (ok (rsa_keys_in r), []);
  with_single_cert = λ certs k. ok (certs, k);
}

some_rustls-ReadsAll : ReadsAll some_rustls (λ r. r ≡ [])
some_rustls-ReadsAll = record {
  reads_to_end = λ r keys e. refl;
  no_more = λ r e i. ok (rsa_keys_in (e i));
}

configure_tls-ok_iff_example :
    (configure_tls some_rustls (codes "cert.pem") (codes "key.pem")
      ≡ ok (codes "c" ∷ [], pkcs8 (codes "k")))
    ↔ Serves some_rustls (codes "cert.pem") (codes "key.pem") (codes "c" ∷ [], pkcs8 (codes "k"))
configure_tls-ok_iff_example =
    configure_tls-ok_iff some_rustls some_rustls-ReadsAll (codes "cert.pem") (codes "key.pem")
      (codes "c" ∷ [], pkcs8 (codes "k"))

rsa_key_is_refused :
    configure_tls some_rustls (codes "cert.pem") (codes "rsa.pem") ≡ err no_private_keys
unfolding configure_tls
rsa_key_is_refused = refl
