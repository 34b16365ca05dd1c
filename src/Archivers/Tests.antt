-- ===== src/Archivers/Tests.antt =====
-- A discovery with an archiver that two answers name.
use liberdus_proxy.Prelude.{refl, returned, ◌≡◌, none, some, List, [], ◌∷◌, Option, Text, codes}
use liberdus_proxy.Config.Samples.{some_config}
use liberdus_proxy.Liberdus.State.{Archiver}
use liberdus_proxy.Crypto.{ShardusCrypto}
use liberdus_proxy.Crypto.Samples.{toy, key_bytes, toy_laws}
use liberdus_proxy.Archivers.Signature.{signed, answer_of, answer_of-signed}
use liberdus_proxy.Archivers.{ArchiverUtil, known_archivers, received, discover}
use liberdus_proxy.Archivers.Discovered.{IsAscending, has_key, discover_lem}

abbrev first_archiver : Archiver
first_archiver = record { public_key = codes "aa"; port = 4000; ip = codes "10.0.0.1" }

abbrev second_archiver : Archiver
second_archiver = record { public_key = codes "ab"; port = 4000; ip = codes "10.0.0.2" }

abbrev util : ArchiverUtil
util = record {
  seed_list = first_archiver ∷ [];
  active_archivers = [];
  cache = [];
  config = some_config;
}

abbrev answers : List Archiver → List (Option (List Archiver))
answers asked =
    some (second_archiver ∷ first_archiver ∷ []) ∷ none ∷ some (second_archiver ∷ []) ∷ []

discover_lem_example :
    IsAscending (discover answers util).active_archivers
    × ((k : Text)
        → has_key k (discover answers util).active_archivers
          ≡ has_key k (received (answers (known_archivers util))))
discover_lem_example = discover_lem answers util

abbrev some_crypto : ShardusCrypto
some_crypto = record { hash_key = codes "k" }

answer_of-signed_example :
    answer_of toy
      (λ archivers. codes "list")
      some_crypto
      (signed (record {
        active_archivers = first_archiver ∷ [];
        sign = record {
          owner = toy.hex_encode (key_bytes (toy.public_key 7));
          sig = toy.hex_encode (toy.sign (codes "list") 7);
        };
      }))
    ≡ returned (some (first_archiver ∷ []))
answer_of-signed_example =
    answer_of-signed toy (λ archivers. codes "list") some_crypto key_bytes toy_laws
      (first_archiver ∷ []) 7 (codes "list") (codes "list") refl
