-- ===== src/Tls/Keys.antt =====
-- Which key files serve.
use liberdus_proxy.Prelude.{List, [], ◌∷◌, Text, Result, ok, err, ◌≡◌, refl, ◌∙◌, sym, ap, ◌↔◌}
use liberdus_proxy.Tls.{
  PrivateKeyDer, pkcs8, Rustls, and_then, some_certs, first_rsa, first_key, read_certs, read_key,
  configure_tls,
}

pub and_then-ok :
    {A B : Type 0} (r : Result Text A) (rest : A → Result Text B) (b : B)
    → and_then r rest ≡ ok b
    → (a : A) × (r ≡ ok a) × (rest a ≡ ok b)
and_then-ok (ok a) rest b e = (a, refl, e)
and_then-ok (err m) rest b e = absurd (cc)

some_certs-ok :
    (certs found : List Text)
    → some_certs certs ≡ ok found
    → (cert : Text) × (rest : List Text) × (certs ≡ cert ∷ rest) × (found ≡ certs)
unfolding some_certs
some_certs-ok [] found e = absurd (cc)
some_certs-ok (cert ∷ rest) found e = (cert, rest, refl, cc)

first_key-ok :
    (keys : List Text) (r : Result Text (List Text)) (k : PrivateKeyDer)
    → r ≡ ok []
    → first_key keys (and_then r first_rsa) ≡ ok k
    → (key : Text) × (rest : List Text) × (keys ≡ key ∷ rest) × (k ≡ pkcs8 key)
unfolding first_key first_rsa
first_key-ok [] (ok []) k none_left e = absurd (cc)
first_key-ok [] (ok (x ∷ xs)) k none_left e = absurd (cc)
first_key-ok [] (err m) k none_left e = absurd (cc)
first_key-ok (key ∷ rest) r k none_left e = (key, rest, refl, cc)

module _ {R C : Type 0} (rustls : Rustls R C) where
  -- What rustls_pemfile documents: the reading of the keys of one kind goes on to the end of the
  -- file, past what is of another kind; and at the end there are no keys, which is no error.
  pub record ReadsAll (IsAtEnd : R → Type 0) : Type 0 where
    pub reads_to_end :
        (r : R) (keys : List Text)
        → (rustls.pkcs8_private_keys r).0 ≡ ok keys
        → IsAtEnd ((rustls.pkcs8_private_keys r).1)
    pub no_more : (r : R) → IsAtEnd r → (rustls.rsa_private_keys r).0 ≡ ok []

  -- The key file opens, and has a key in PKCS#8 first among those.
  abbrev pub HasPkcs8 : Text → Text → Type 0
  HasPkcs8 key_path key =
      (file : R) × (rest : List Text) × (rustls.open_file key_path ≡ ok file)
      × ((rustls.pkcs8_private_keys file).0 ≡ ok (key ∷ rest))

  abbrev pub HasCerts : Text → Text → List Text → Type 0
  HasCerts cert_path cert rest =
      (file : R) × (rustls.open_file cert_path ≡ ok file)
      × ((rustls.certs file).0 ≡ ok (cert ∷ rest))

  -- A configuration that the two files give.
  pub record Serves (cert_path key_path : Text) (c : C) : Type 0 where
    pub cert : Text
    pub certs : List Text
    pub key : Text
    pub has_certs : HasCerts cert_path cert certs
    pub has_key : HasPkcs8 key_path key
    pub built : rustls.with_single_cert (cert ∷ certs) (pkcs8 key) ≡ ok c

  read_certs-ok :
      (cert_path : Text) (found : List Text)
      → read_certs rustls cert_path ≡ ok found
      → (cert : Text) × (rest : List Text) × (found ≡ cert ∷ rest) × HasCerts cert_path cert rest
  unfolding read_certs
  read_certs-ok cert_path found e =
      let (file, opened, e') = and_then-ok (rustls.open_file cert_path) _ found e in
      let (certs, read, e'') = and_then-ok ((rustls.certs file).0) some_certs found e' in
      let (cert, rest, same, same') = some_certs-ok certs found e'' in
      (cert, rest, same' ∙ same, (file, opened, read ∙ ap ok same))

  read_key-ok :
      {IsAtEnd : R → Type 0}
      → ReadsAll IsAtEnd
      → (key_path : Text) (k : PrivateKeyDer) → read_key rustls key_path ≡ ok k
      → (key : Text) × (k ≡ pkcs8 key) × HasPkcs8 key_path key
  unfolding read_key
  read_key-ok all key_path k e =
      let (file, opened, e') = and_then-ok (rustls.open_file key_path) _ k e in
      let (keys, read, e'') = and_then-ok ((rustls.pkcs8_private_keys file).0) _ k e' in
      let (key, rest, same, same') =
        first_key-ok keys _ k (all.no_more _ (all.reads_to_end file keys read)) e'' in
      (key, same', (file, rest, opened, read ∙ ap ok same))

  Serves-configured :
      {IsAtEnd : R → Type 0}
      → ReadsAll IsAtEnd
      → (cert_path key_path : Text) (c : C) → configure_tls rustls cert_path key_path ≡ ok c
      → Serves cert_path key_path c
  unfolding configure_tls
  Serves-configured all cert_path key_path c e =
      let (certs, e', rest) = and_then-ok (read_certs rustls cert_path) _ c e in
      let (k, e'', built) = and_then-ok (read_key rustls key_path) _ c rest in
      let (cert, others, same, has_certs) = read_certs-ok cert_path certs e' in
      let (key, same', has_key) = read_key-ok all key_path k e'' in
      record {
        cert = cert;
        certs = others;
        key = key;
        has_certs = has_certs;
        has_key = has_key;
        built = sym (λ i. rustls.with_single_cert (same i) (same' i)) ∙ built;
      }

  configured-Serves :
      (cert_path key_path : Text) (c : C)
      → Serves cert_path key_path c
      → configure_tls rustls cert_path key_path ≡ ok c
  unfolding configure_tls read_certs read_key some_certs first_key
  configured-Serves cert_path key_path c s =
      let (file, opened, read) = s.has_certs in
      let (file', rest, opened', read') = s.has_key in rw (opened, read, opened', read') s.built

  -- With what rustls_pemfile documents: a configuration results exactly when the certificates' file
  -- has one, the key's file has a key in PKCS#8, and rustls takes all certificates and the first such
  -- key. A file with RSA keys alone never serves.
  pub configure_tls-ok_iff :
      {IsAtEnd : R → Type 0}
      → ReadsAll IsAtEnd
      → (cert_path key_path : Text) (c : C)
      → (configure_tls rustls cert_path key_path ≡ ok c) ↔ Serves cert_path key_path c
  configure_tls-ok_iff all cert_path key_path c =
      (Serves-configured all cert_path key_path c, configured-Serves cert_path key_path c)
