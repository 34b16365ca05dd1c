-- ===== src/Liberdus/State/Update.antt =====
-- Which archiver's list a refresh installs.
use liberdus_proxy.Prelude.{
  ◌≡◌, refl, ap, List, [], ◌∷◌, ◌++◌, ◌⊎◌, inl, inr, Outcome, returned, panicked,
}
use liberdus_proxy.Liberdus.State.{
  Archiver, Liberdus, Fetch, node_list, failed, unreadable, install, update_from,
  update_active_nodelist,
}

-- What an answer that is no failure leads to.
abbrev pub Settles : {F : Type 0} → Fetch F → Liberdus F → Outcome (Liberdus F) → Type 0
Settles (node_list nodes) s r = r ≡ returned (install nodes s)
Settles failed s r = ⊥
Settles unreadable s r = r ≡ panicked

module _ {F : Type 0} (fetch : Archiver → Fetch F) where
  -- No archiver of the list answers with a node list or an unreadable body.
  abbrev pub AllFailed : List Archiver → Type 0
  AllFailed [] = Unit
  AllFailed (a ∷ others) = (fetch a ≡ failed) × AllFailed others

  abbrev pub FirstDecides : List Archiver → Liberdus F → Outcome (Liberdus F) → Type 0
  FirstDecides archivers s r =
      (tried : List Archiver) × (a : Archiver) × (others : List Archiver) × (archivers
        ≡ tried ++ (a ∷ others))
      × AllFailed tried
      × Settles (fetch a) s r

  Fetch-cases :
      (x : Fetch F) → ((nodes : _) × (x ≡ node_list nodes)) ⊎ (x ≡ failed) ⊎ (x ≡ unreadable)
  Fetch-cases (node_list nodes) = inl (nodes, refl)
  Fetch-cases failed = inr (inl refl)
  Fetch-cases unreadable = inr (inr refl)

  update_from-decides :
      (archivers : List Archiver) (s : Liberdus F)
      → (AllFailed archivers × (update_from fetch archivers s ≡ returned s))
        ⊎ FirstDecides archivers s (update_from fetch archivers s)
  unfolding update_from
  update_from-decides [] s = inl (tt, refl)
  update_from-decides (a ∷ archivers) s = elim (Fetch-cases (fetch a)) [
    | inl (nodes, e) ↦ inr ([], a, archivers, refl, tt, rw (e, update_from) refl)
    | inr (inl e) ↦ elim (update_from-decides archivers s) [
      | inl (none_left, same) ↦ inl ((e, none_left), rw (e, update_from) same)
      | inr (tried, b, others, split, bad, settled) ↦
          inr (a ∷ tried, b, others, ap (◌∷◌ a) split, (e, bad), rw (e, update_from) settled)
    ]
    | inr (inr e) ↦ inr ([], a, archivers, refl, tt, rw (e, update_from) refl)
  ]

  -- A refresh asks the archivers in order. The first that does not fail decides: its list is
  -- installed, or its unreadable body ends the task by a panic. Where all fail, nothing changes.
  pub update_active_nodelist-decides :
      (s : Liberdus F)
      → (AllFailed s.archivers × (update_active_nodelist fetch s ≡ returned s))
        ⊎ FirstDecides s.archivers s (update_active_nodelist fetch s)
  unfolding update_active_nodelist
  update_active_nodelist-decides s = update_from-decides s.archivers s
