-- ===== src/Archivers.antt =====
-- `discover` of src/archivers.rs: the list of active archivers, from what the known ones answer.
pub mod Keys
pub mod Signature
pub mod Discovered
mod Tests
use liberdus_proxy.Prelude.{
  ℕ, Bool, true, false, Option, none, some, List, [], ◌∷◌, ◌++◌, map, Text, text_beq, ltb, ◌==◌,
  if◌then◌else◌,
}
use liberdus_proxy.Config.{Config}
use liberdus_proxy.Liberdus.State.{Archiver}

-- `seed_list`, `active_archivers` and `config` of `ArchiverUtil`; `cache` is what the file
-- "known_archiver_cache.json" holds, empty if it cannot be read.
pub record ArchiverUtil : Type 0 where
  pub seed_list : List Archiver
  pub active_archivers : List Archiver
  pub cache : List Archiver
  pub config : Config

-- `remove_file` removes the file, or fails; a file that is not there leaves nothing to read either.
unfoldable pub new : Bool → List Archiver → List Archiver → Config → ArchiverUtil
new is_removed cache seed config = record {
  seed_list = seed;
  active_archivers = [];
  cache = if is_removed then [] else cache;
  config = config;
}

-- The order of `String`: that of its bytes.
abbrev pub text_leb : Text → Text → Bool
text_leb [] ys = true
text_leb (x ∷ xs) [] = false
text_leb (x ∷ xs) (y ∷ ys) = if x == y then text_leb xs ys else ltb x y

insert_by_key : Archiver → List Archiver → List Archiver
insert_by_key x [] = x ∷ []
insert_by_key x (y ∷ ys) =
    let rest = insert_by_key x ys in
    if text_leb x.public_key y.public_key then x ∷ y ∷ ys else y ∷ rest

-- `sort_by`, which is stable.
unfoldable pub sort_by_key : List Archiver → List Archiver
unfolding insert_by_key
sort_by_key [] = []
sort_by_key (x ∷ xs) = insert_by_key x (sort_by_key xs)

-- `dedup_by` drops an element whose key is that of the last one that it kept.
unfoldable pub dedup_from : List Archiver → Archiver → List Archiver
dedup_from [] last = []
dedup_from (x ∷ xs) last =
    let dropped = dedup_from xs last in
    let kept = dedup_from xs x in
    if text_beq x.public_key last.public_key then dropped else x ∷ kept

unfoldable pub dedup_by_key : List Archiver → List Archiver
unfolding dedup_from
dedup_by_key [] = []
dedup_by_key (x ∷ xs) = x ∷ dedup_from xs x

-- The archivers that are asked.
unfoldable pub known_archivers : ArchiverUtil → List Archiver
known_archivers util = dedup_by_key (util.cache ++ util.seed_list)

-- The answers in the order of their arrival: a list whose signature is valid, or an error.
unfoldable pub received : List (Option (List Archiver)) → List Archiver
received [] = []
received (none ∷ answers) = received answers
received (some archivers ∷ answers) = archivers ++ received answers

unfoldable pub replace_ip : Text → Archiver → Archiver
replace_ip ip archiver = record archiver { ip = ip }

unfoldable pub replace_archiver_ips : Config → List Archiver → List Archiver
replace_archiver_ips c archivers =
    if c.standalone_network.enabled
    then map (replace_ip c.standalone_network.replacement_ip) archivers
    else archivers

-- `arrive` is what the asked archivers answer, in the order of arrival. The list is stored, and
-- written to the file.
unfoldable pub discover :
    (List Archiver → List (Option (List Archiver))) → ArchiverUtil → ArchiverUtil
discover arrive util =
    let all = received (arrive (known_archivers util)) in
    let found = replace_archiver_ips util.config (dedup_by_key (sort_by_key all)) in
    record util { active_archivers = found; cache = found }
