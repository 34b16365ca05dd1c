-- ===== src/Archivers/Discovered.antt =====
-- The list that `discover` stores.
use liberdus_proxy.Prelude.{
  ◌≡◌, refl, ap, ◌∙◌, Bool, true, false, ◌||◌, Option, List, [], ◌∷◌, map, arith, Text, text_beq,
  text_beq_iff, Bool-cases, inl, inr,
}
use liberdus_proxy.Liberdus.State.{Archiver}
use liberdus_proxy.Archivers.{
  ArchiverUtil, text_leb, insert_by_key, sort_by_key, dedup_from, dedup_by_key, known_archivers,
  received, replace_ip, replace_archiver_ips, discover,
}
use liberdus_proxy.Archivers.Keys.{text_ltb, text_leb_total, text_leb_trans, text_ltb_trans}

-- Some archiver of the list has the key.
abbrev pub has_key : Text → List Archiver → Bool
has_key k [] = false
has_key k (x ∷ xs) = text_beq k x.public_key || has_key k xs

-- The keys of the list are not below the key.
abbrev AtLeast : Text → List Archiver → Type 0
AtLeast k [] = Unit
AtLeast k (x ∷ xs) = (text_leb k x.public_key ≡ true) × AtLeast k xs

abbrev IsSorted : List Archiver → Type 0
IsSorted [] = Unit
IsSorted (x ∷ xs) = AtLeast x.public_key xs × IsSorted xs

-- The keys of the list are above the key.
abbrev pub Above : Text → List Archiver → Type 0
Above k [] = Unit
Above k (x ∷ xs) = (text_ltb k x.public_key ≡ true) × Above k xs

-- Each key is above all keys before it.
abbrev pub IsAscending : List Archiver → Type 0
IsAscending [] = Unit
IsAscending (x ∷ xs) = Above x.public_key xs × IsAscending xs

AtLeast-lower :
    (j k : Text) (xs : List Archiver) → text_leb j k ≡ true → AtLeast k xs → AtLeast j xs
AtLeast-lower j k [] h a = tt
AtLeast-lower j k (x ∷ xs) h a = (text_leb_trans j k x.public_key h a.0, AtLeast-lower j k xs h a.1)

AtLeast-insert_by_key :
    (k : Text) (x : Archiver) (ys : List Archiver)
    → text_leb k x.public_key ≡ true
    → AtLeast k ys
    → AtLeast k (insert_by_key x ys)
unfolding insert_by_key
AtLeast-insert_by_key k x [] h a = (h, tt)
AtLeast-insert_by_key k x (y ∷ ys) h a = elim (Bool-cases (text_leb x.public_key y.public_key)) [
  | inl e ↦ rw e (h, a)
  | inr e ↦ rw e (a.0, AtLeast-insert_by_key k x ys h a.1)
]

IsSorted-insert_by_key :
    (x : Archiver) (ys : List Archiver) → IsSorted ys → IsSorted (insert_by_key x ys)
unfolding insert_by_key
IsSorted-insert_by_key x [] s = (tt, tt)
IsSorted-insert_by_key x (y ∷ ys) s = elim (Bool-cases (text_leb x.public_key y.public_key)) [
  | inl e ↦ rw e ((e, AtLeast-lower x.public_key y.public_key ys e s.0), s)
  | inr e ↦ rw e (
    AtLeast-insert_by_key y.public_key x ys (text_leb_total x.public_key y.public_key e) s.0,
    IsSorted-insert_by_key x ys s.1,
  )
]

IsSorted-sort_by_key : (xs : List Archiver) → IsSorted (sort_by_key xs)
unfolding sort_by_key
IsSorted-sort_by_key [] = tt
IsSorted-sort_by_key (x ∷ xs) = IsSorted-insert_by_key x (sort_by_key xs) (IsSorted-sort_by_key xs)

Above-lower : (j k : Text) (xs : List Archiver) → text_ltb j k ≡ true → Above k xs → Above j xs
Above-lower j k [] h a = tt
Above-lower j k (x ∷ xs) h a = (text_ltb_trans j k x.public_key h a.0, Above-lower j k xs h a.1)

IsAscending-dedup_from :
    (xs : List Archiver) (last : Archiver)
    → AtLeast last.public_key xs
    → IsSorted xs
    → IsAscending (last ∷ dedup_from xs last)
unfolding dedup_from
IsAscending-dedup_from [] last a s = (tt, tt)
IsAscending-dedup_from (x ∷ xs) last a s =
    elim (Bool-cases (text_beq x.public_key last.public_key)) [
      | inl e ↦ rw e (IsAscending-dedup_from xs last a.1 s.1)
      | inr e ↦
          let below : text_ltb last.public_key x.public_key ≡ true = ground (
            arith,
            a.0,
            text_beq_iff x.public_key last.public_key,
            text_beq_iff last.public_key x.public_key,
          ) in
          let rest = IsAscending-dedup_from xs x s.0 s.1 in
          rw e
            ((below, Above-lower last.public_key x.public_key (dedup_from xs x) below rest.0), rest)
    ]

IsAscending-dedup_by_key : (xs : List Archiver) → IsSorted xs → IsAscending (dedup_by_key xs)
unfolding dedup_by_key
IsAscending-dedup_by_key [] s = tt
IsAscending-dedup_by_key (x ∷ xs) s = IsAscending-dedup_from xs x s.0 s.1

has_key-insert_by_key :
    (k : Text) (x : Archiver) (ys : List Archiver)
    → has_key k (insert_by_key x ys) ≡ (text_beq k x.public_key || has_key k ys)
unfolding insert_by_key
has_key-insert_by_key k x [] = refl
has_key-insert_by_key k x (y ∷ ys) = ground (arith, has_key-insert_by_key k x ys)

has_key-sort_by_key : (k : Text) (xs : List Archiver) → has_key k (sort_by_key xs) ≡ has_key k xs
unfolding sort_by_key
has_key-sort_by_key k [] = refl
has_key-sort_by_key k (x ∷ xs) =
    ground (arith, has_key-insert_by_key k x (sort_by_key xs), has_key-sort_by_key k xs)

has_key-dedup_from :
    (k : Text) (xs : List Archiver) (last : Archiver)
    → (text_beq k last.public_key || has_key k (dedup_from xs last))
      ≡ (text_beq k last.public_key || has_key k xs)
unfolding dedup_from
has_key-dedup_from k [] last = refl
has_key-dedup_from k (x ∷ xs) last = ground (
  arith,
  has_key-dedup_from k xs last,
  has_key-dedup_from k xs x,
  text_beq_iff x.public_key last.public_key,
)

has_key-dedup_by_key : (k : Text) (xs : List Archiver) → has_key k (dedup_by_key xs) ≡ has_key k xs
unfolding dedup_by_key
has_key-dedup_by_key k [] = refl
has_key-dedup_by_key k (x ∷ xs) = has_key-dedup_from k xs x

module _ (ip : Text) where
  Above-map : (k : Text) (xs : List Archiver) → Above k xs → Above k (map (replace_ip ip) xs)
  unfolding replace_ip
  Above-map k [] a = tt
  Above-map k (x ∷ xs) a = (a.0, Above-map k xs a.1)

  IsAscending-map : (xs : List Archiver) → IsAscending xs → IsAscending (map (replace_ip ip) xs)
  unfolding replace_ip
  IsAscending-map [] a = tt
  IsAscending-map (x ∷ xs) a = (Above-map x.public_key xs a.0, IsAscending-map xs a.1)

  has_key-map : (k : Text) (xs : List Archiver) → has_key k (map (replace_ip ip) xs) ≡ has_key k xs
  unfolding replace_ip
  has_key-map k [] = refl
  has_key-map k (x ∷ xs) = ap (◌||◌ (text_beq k x.public_key)) (has_key-map k xs)

-- The stored list is ascending by public key, so that no key occurs twice, and it has exactly the
-- keys of the valid answers, whether or not the addresses are replaced.
pub discover_lem :
    (arrive : List Archiver → List (Option (List Archiver))) (util : ArchiverUtil)
    → IsAscending (discover arrive util).active_archivers
      × ((k : Text)
          → has_key k (discover arrive util).active_archivers
            ≡ has_key k (received (arrive (known_archivers util))))
unfolding discover replace_archiver_ips known_archivers
discover_lem arrive util =
    let all = received (arrive (known_archivers util)) in
    let found = dedup_by_key (sort_by_key all) in
    let ascending = IsAscending-dedup_by_key (sort_by_key all) (IsSorted-sort_by_key all) in
    let same : (k : Text) → has_key k found ≡ has_key k all =
      λ k. has_key-dedup_by_key k (sort_by_key all) ∙ has_key-sort_by_key k all in
    let ip = util.config.standalone_network.replacement_ip in
    elim (Bool-cases util.config.standalone_network.enabled) [
      | inl e ↦ rw e (IsAscending-map ip found ascending, λ k. has_key-map ip k found ∙ same k)
      | inr e ↦ rw e (ascending, same)
    ]
