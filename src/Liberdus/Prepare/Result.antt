-- ===== src/Liberdus/Prepare/Result.antt =====
-- What `prepare_list` leaves in the state.
use mathlib.Core.List.{Perm}
use mathlib.Core.List.Perm
use liberdus_proxy.Prelude.{
  ℕ, suc, ◌≤◌, ◌≡◌, refl, ap, ◌∙◌, true, false, none, List, [], ◌∷◌, map, All, Text, text_eq,
  length, length-map,
}
use liberdus_proxy.Prelude.HashMap.{HashMap}
use liberdus_proxy.Liberdus.Float.{Floats}
use liberdus_proxy.Liberdus.State.{Consensor, Liberdus}
use liberdus_proxy.Liberdus.Prepare.{
  trip_of, sort_by, set_bias, accumulate, prepare_list, calculate_bias,
}
use liberdus_proxy.Liberdus.Prepare.Sorted.{
  IsSortedBy, IsSortedBy-sort_by, sort_by-perm, length-sort_by,
}

-- A node without its bias.
pub forget_bias : {F : Type 0} → Consensor F → Consensor F
forget_bias node = record node { rng_bias = none }

module _ {F : Type 0} ⦃o : Floats F⦄ where
  pub length-accumulate :
      (nodes : List (Consensor F)) (total : F) → length (accumulate total nodes) ≡ length nodes
  unfolding accumulate
  length-accumulate [] total = refl
  length-accumulate (node ∷ nodes) total = ap suc (length-accumulate nodes _)

  -- Each weight is the one before it, 0.0 for the first, plus the bias that the trip time gives.
  abbrev pub AreWeights : (Consensor F → F) → F → List (Consensor F) → List F → Type 0
  AreWeights bias total [] [] = Unit
  AreWeights bias total (node ∷ nodes) (w ∷ ws) =
      (w ≡ o.add total (bias node)) × AreWeights bias w nodes ws
  AreWeights bias total _ _ = ⊥

  module _ (trip_ms : HashMap Text ℕ) (max_timeout : ℕ) where
    abbrev pub bias_of : Consensor F → F
    bias_of node = calculate_bias (trip_of trip_ms max_timeout node) max_timeout

    AreWeights-accumulate :
        (nodes : List (Consensor F)) (total : F)
        → AreWeights bias_of total
            (map (set_bias trip_ms max_timeout) nodes)
            (accumulate total (map (set_bias trip_ms max_timeout) nodes))
    unfolding accumulate set_bias trip_of
    AreWeights-accumulate [] total = tt
    AreWeights-accumulate (node ∷ nodes) total = (refl, AreWeights-accumulate nodes _)

    forget_bias-set_bias :
        (nodes : List (Consensor F))
        → map forget_bias (map (set_bias trip_ms max_timeout) nodes) ≡ map forget_bias nodes
    unfolding forget_bias set_bias
    forget_bias-set_bias [] = refl
    forget_bias-set_bias (node ∷ nodes) = ap (◌∷◌ (forget_bias node)) (forget_bias-set_bias nodes)

    All-set_bias :
        (m : ℕ) (nodes : List (Consensor F))
        → All (λ y. m ≤ trip_of trip_ms max_timeout y) nodes
        → All (λ y. m ≤ trip_of trip_ms max_timeout y) (map (set_bias trip_ms max_timeout) nodes)
    unfolding set_bias trip_of
    All-set_bias m [] h = tt
    All-set_bias m (node ∷ nodes) h = (h.0, All-set_bias m nodes h.1)

    IsSortedBy-set_bias :
        (nodes : List (Consensor F))
        → IsSortedBy (trip_of trip_ms max_timeout) nodes
        → IsSortedBy (trip_of trip_ms max_timeout) (map (set_bias trip_ms max_timeout) nodes)
    unfolding set_bias trip_of
    IsSortedBy-set_bias [] h = tt
    IsSortedBy-set_bias (node ∷ nodes) h =
        (All-set_bias (trip_of trip_ms max_timeout node) nodes h.0, IsSortedBy-set_bias nodes h.1)

  -- A call that prepares keeps the nodes up to order and bias, puts faster ones first, stores for
  -- each node the running total of the biases up to it, and marks the list as prepared.
  pub prepare_list_lem :
      (s : Liberdus F)
      → s.list_prepared ≡ false
      → Perm (map forget_bias (prepare_list s).active_nodelist) (map forget_bias s.active_nodelist)
        × IsSortedBy
            (trip_of s.trip_ms s.config.max_http_timeout_ms)
            (prepare_list s).active_nodelist
        × AreWeights
            (bias_of s.trip_ms s.config.max_http_timeout_ms)
            o.float_zero
            (prepare_list s).active_nodelist
            (prepare_list s).load_distribution_commulative_bias
        × ((prepare_list s).list_prepared ≡ true)
  unfolding prepare_list
  prepare_list_lem s h =
      let key = trip_of s.trip_ms s.config.max_http_timeout_ms in
      let sorted = sort_by key s.active_nodelist in
      rw (h, prepare_list)
        (
          rw (forget_bias-set_bias s.trip_ms s.config.max_http_timeout_ms sorted)
              (Perm.map forget_bias (sort_by-perm key s.active_nodelist)),
          IsSortedBy-set_bias s.trip_ms s.config.max_http_timeout_ms sorted
              (IsSortedBy-sort_by key s.active_nodelist),
          AreWeights-accumulate s.trip_ms s.config.max_http_timeout_ms sorted o.float_zero,
          refl,
        )

  -- As many weights as nodes, however many there are.
  pub length-prepare_list :
      (s : Liberdus F)
      → s.list_prepared ≡ false
      → (length (prepare_list s).load_distribution_commulative_bias
          ≡ length (prepare_list s).active_nodelist)
        × (length (prepare_list s).active_nodelist ≡ length s.active_nodelist)
        × ((prepare_list s).list_prepared ≡ true)
  unfolding prepare_list
  length-prepare_list s h =
      let key = trip_of s.trip_ms s.config.max_http_timeout_ms in
      let sorted = sort_by key s.active_nodelist in
      rw (h, prepare_list)
        (
          length-accumulate (map (set_bias s.trip_ms s.config.max_http_timeout_ms) sorted)
              o.float_zero,
          length-map (set_bias s.trip_ms s.config.max_http_timeout_ms) sorted
              ∙ length-sort_by key s.active_nodelist,
          refl,
        )
