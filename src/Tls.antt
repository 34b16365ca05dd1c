-- ===== src/Tls.antt =====
-- `configure_tls` of src/tls.rs.
pub mod Keys
mod Tests
use liberdus_proxy.Prelude.{List, [], ◌∷◌, Text, codes, Result, ok, err}

-- `PrivateKeyDer`
pub data PrivateKeyDer : Type 0 where
  pkcs8 pkcs1 : Text → PrivateKeyDer

-- The files, and the functions of rustls_pemfile and rustls. A reading function changes the reader
-- `R`; `with_single_cert` gives a configuration `C`.
pub record Rustls (R C : Type 0) : Type 0 where
  pub open_file : Text → Result Text R
  pub certs : R → Result Text (List Text) × R
  pub pkcs8_private_keys : R → Result Text (List Text) × R
  pub rsa_private_keys : R → Result Text (List Text) × R
  pub with_single_cert : List Text → PrivateKeyDer → Result Text C

-- `?`
abbrev pub and_then : {A B : Type 0} → Result Text A → (A → Result Text B) → Result Text B
and_then (ok a) rest = rest a
and_then (err e) rest = err e

abbrev pub no_certificates : Text
no_certificates = codes "No valid certificates found in the PEM file"

abbrev pub no_private_keys : Text
no_private_keys = codes "No valid private keys found in the PEM file"

some_certs : List Text → Result Text (List Text)
some_certs [] = err no_certificates
some_certs (cert ∷ certs) = ok (cert ∷ certs)

first_rsa : List Text → Result Text PrivateKeyDer
first_rsa [] = err no_private_keys
first_rsa (key ∷ keys) = ok (pkcs1 key)

-- The first key in PKCS#8, or else what there is in RSA.
first_key : List Text → Result Text PrivateKeyDer → Result Text PrivateKeyDer
first_key [] rsa = rsa
first_key (key ∷ keys) rsa = ok (pkcs8 key)

module _ {R C : Type 0} (rustls : Rustls R C) where
  read_certs : Text → Result Text (List Text)
  read_certs cert_path =
      and_then (rustls.open_file cert_path) λ file. and_then ((rustls.certs file).0) some_certs

  -- Both kinds of keys are read from the same reader.
  read_key : Text → Result Text PrivateKeyDer
  read_key key_path = and_then (rustls.open_file key_path) λ file.
      let read = rustls.pkcs8_private_keys file in
      and_then (read.0)
        λ keys. first_key keys (and_then ((rustls.rsa_private_keys (read.1)).0) first_rsa)

  unfoldable pub configure_tls : Text → Text → Result Text C
  unfolding read_certs read_key some_certs first_rsa first_key
  configure_tls cert_path key_path =
      and_then (read_certs cert_path) λ certs.
        and_then (read_key key_path) λ private_key. rustls.with_single_cert certs private_key
