-- ===== src/Subscription/Index.antt =====
-- The two maps of the manager, from a key to a set that is never left empty: `entry(k)
-- .or_insert(HashSet::new()).insert(x)`, and the removal that drops a set with its last element.
use liberdus_proxy.Prelude.{
  ◌≡◌, Bool, true, false, ◌&&◌, Option, none, some, List, [], arith, Text, is_empty, text_beq,
  text_beq_iff, text_eq, if◌then◌else◌, Option-cases, inl, inr,
}
use liberdus_proxy.Prelude.HashMap
use liberdus_proxy.Prelude.HashMap.{HashMap, get-insert, get-remove}
use liberdus_proxy.Prelude.HashSet
use liberdus_proxy.Prelude.HashSet.{
  contains-insert, contains-remove, is_empty-insert, contains-is_empty,
}

-- `map.get(k).map_or(false, |set| set.contains(x))`
unfoldable pub is_linked : Text → Text → HashMap Text (List Text) → Bool
is_linked k x m = elim (HashMap.get k m) [ none ↦ false | some set ↦ HashSet.contains set x ]

unfoldable pub or_new : Option (List Text) → List Text
or_new none = []
or_new (some set) = set

unfoldable pub insert_into : Text → Text → HashMap Text (List Text) → HashMap Text (List Text)
unfolding or_new
insert_into k x m = HashMap.insert k (HashSet.insert x (or_new (HashMap.get k m))) m

unfoldable pub remove_from : Text → Text → HashMap Text (List Text) → HashMap Text (List Text)
remove_from k x m = elim (HashMap.get k m) [
  | none ↦ m
  | some set ↦
      if is_empty (HashSet.remove x set)
      then HashMap.remove k m
      else HashMap.insert k (HashSet.remove x set) m
]

-- Every set of the map has an element.
abbrev pub IsFull : HashMap Text (List Text) → Type 0
IsFull m = (k : Text) (set : List Text) → HashMap.get k m ≡ some set → is_empty set ≡ false

module _ (k x : Text) (m : HashMap Text (List Text)) where
  pub is_linked-insert_into :
      (j y : Text)
      → is_linked j y (insert_into k x m)
        ≡ (if text_beq k j && text_beq x y then true else is_linked j y m)
  unfolding is_linked insert_into HashSet.contains
  is_linked-insert_into j y = ground (
    arith,
    get-insert k j (HashSet.insert x (or_new (HashMap.get k m))) m,
    contains-insert x y (or_new (HashMap.get k m)),
    text_beq_iff k j,
  )

  pub is_linked-remove_from :
      (j y : Text)
      → is_linked j y (remove_from k x m)
        ≡ (if text_beq k j && text_beq x y then false else is_linked j y m)
  unfolding is_linked remove_from
  is_linked-remove_from j y = elim (Option-cases (HashMap.get k m)) [
    | inl e ↦ ground (arith, text_beq_iff k j)
    | inr (set, e) ↦ ground (
      arith,
      get-insert k j (HashSet.remove x set) m,
      get-remove k j m,
      contains-remove x y set,
      contains-is_empty y (HashSet.remove x set),
      text_beq_iff k j,
    )
  ]

  pub IsFull-insert_into : IsFull m → IsFull (insert_into k x m)
  unfolding insert_into
  IsFull-insert_into h j set e = ground (
    arith,
    get-insert k j (HashSet.insert x (or_new (HashMap.get k m))) m,
    is_empty-insert x (or_new (HashMap.get k m)),
    h j set,
  )

  pub IsFull-remove_from : IsFull m → IsFull (remove_from k x m)
  unfolding remove_from
  IsFull-remove_from h j set e = elim (Option-cases (HashMap.get k m)) [
    | inl none_k ↦ ground (arith, h j set)
    | inr (s, some_k) ↦
        ground (arith, get-insert k j (HashSet.remove x s) m, get-remove k j m, h j set)
  ]
