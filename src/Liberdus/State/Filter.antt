-- ===== src/Liberdus/State/Filter.antt =====
-- What the refresh of the node list leaves.
use liberdus_proxy.Prelude.{
  ℕ, ◌-◌, ◌≤◌, ◌<◌, ◌≡◌, sym, ap, ◌∙◌, true, ◌&&◌, List, [], ◌++◌, arith, length, take, drop,
  take-append-drop, length-take, length-drop, ltb, if◌then◌else◌, Bool-cases, inl, inr, ◌⊎◌, ◌↔◌,
}
use mathlib.Core.List.{append_assoc, append-nil}
use liberdus_proxy.Config.{NodeFilteringConfig}
use liberdus_proxy.Liberdus.State.{Consensor, remove_ends, filter_nodes}

regroup {ℓ} :
    {A : Type ℓ} (m n : ℕ) (xs : List A)
    → take m (take n xs) ++ (drop m (take n xs) ++ drop n xs) ≡ xs
regroup m n xs =
    sym (append_assoc (take m (take n xs)) (drop m (take n xs)) (drop n xs))
    ∙ ap (λ ys. ys ++ drop n xs) (take-append-drop m (take n xs))
    ∙ take-append-drop n xs

module _ {F : Type 0} (c : NodeFilteringConfig) (nodes : List (Consensor F)) where
  -- The filtered list is a window of the join order: at most `remove_top_nodes` are gone before it
  -- and at most `remove_bottom_nodes` after it.
  abbrev pub IsWindow : List (Consensor F) → List (Consensor F) → List (Consensor F) → Type 0
  IsWindow before kept after =
      (nodes ≡ before ++ (kept ++ after))
      × (length before ≤ c.remove_top_nodes)
      × (length after ≤ c.remove_bottom_nodes)

  IsWindow-remove_ends :
      (before : List (Consensor F)) × (after : List (Consensor F)) × IsWindow before
        (remove_ends c nodes)
        after
  unfolding remove_ends
  IsWindow-remove_ends =
      let n = length nodes - c.remove_bottom_nodes in
      elim (Bool-cases
        (ltb 0 c.remove_top_nodes && ltb c.remove_top_nodes (length (take n nodes)))) [
          | inl both ↦ (
            take c.remove_top_nodes (take n nodes),
            drop n nodes,
            rw both (
              sym (regroup c.remove_top_nodes n nodes),
              omega (arith, length-take c.remove_top_nodes (take n nodes)),
              omega (arith, length-drop n nodes),
            ),
          )
          | inr few ↦ (
            [],
            drop n nodes,
            rw few
                (sym (take-append-drop n nodes), omega arith, omega (arith, length-drop n nodes)),
          )
        ]

  -- The filtered list is the join order less a stretch of at most `remove_top_nodes` at its start and
  -- one of at most `remove_bottom_nodes` at its end.
  pub IsWindow-filter_nodes :
      (before : List (Consensor F)) × (after : List (Consensor F)) × IsWindow before
        (filter_nodes c nodes)
        after
  unfolding filter_nodes
  IsWindow-filter_nodes =
      elim (Bool-cases (c.enabled && ltb c.min_nodes_for_filtering (length nodes))) [
        | inl on ↦ rw on IsWindow-remove_ends
        | inr off ↦ ([], [], rw off (sym (append-nil nodes), omega arith, omega arith))
      ]

  length-remove_ends : length (remove_ends c nodes) ≡ (
      if ltb c.remove_top_nodes (length nodes - c.remove_bottom_nodes)
      then length nodes - c.remove_bottom_nodes - c.remove_top_nodes
      else length nodes - c.remove_bottom_nodes)
  unfolding remove_ends
  length-remove_ends =
      let n = length nodes - c.remove_bottom_nodes in
      ground (arith, length-take n nodes, length-drop c.remove_top_nodes (take n nodes))

  -- How many nodes are left: all of them, unless the filter is on and the list is longer than the
  -- minimum; then the bottom ones go, and the top ones too unless they are all that is left.
  pub length-filter_nodes : length (filter_nodes c nodes) ≡ (
      if c.enabled && ltb c.min_nodes_for_filtering (length nodes)
      then (if ltb c.remove_top_nodes (length nodes - c.remove_bottom_nodes)
          then length nodes - c.remove_bottom_nodes - c.remove_top_nodes
          else length nodes - c.remove_bottom_nodes)
      else length nodes)
  unfolding filter_nodes
  length-filter_nodes = ground (arith, length-remove_ends)

  -- A refresh loses every node exactly when the list was empty, or the filter is on, the list is
  -- longer than the minimum, and `remove_bottom_nodes` is at least its length.
  pub filter_nodes-eq-nil_iff : (length (filter_nodes c nodes) ≡ 0) ↔ (
      (length nodes ≡ 0)
      ⊎ ((c.enabled ≡ true)
          × (c.min_nodes_for_filtering < length nodes)
          × (length nodes ≤ c.remove_bottom_nodes)))
  filter_nodes-eq-nil_iff =
      (λ h. ground (arith, length-filter_nodes), λ h. ground (arith, length-filter_nodes))
