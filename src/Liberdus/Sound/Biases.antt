-- ===== src/Liberdus/Sound/Biases.antt =====
-- No bias and no weight is below 0.0 when the trip times are timely.
use liberdus_proxy.Prelude.{
  ℕ, ◌≤◌, ◌<◌, inl, inr, Bool-cases, List, [], ◌∷◌, map, Text, text_eq, text_beq, All, arith, ◌==◌,
}
use liberdus_proxy.Prelude.HashMap
use liberdus_proxy.Prelude.HashMap.{HashMap}
use liberdus_proxy.Liberdus.Float.{Floats}
use liberdus_proxy.Liberdus.State.{Consensor}
use liberdus_proxy.Liberdus.Prepare.{trip_of, or_max, calculate_bias, set_bias, accumulate}
use liberdus_proxy.Liberdus.Select.{last_or}
use liberdus_proxy.Liberdus.Sound.{IsNonneg, SignLaws, IsTimely}

pub All-insert :
    (max_timeout : ℕ) (id : Text) (t : ℕ) (m : HashMap Text ℕ)
    → t ≤ max_timeout
    → All (IsTimely max_timeout) m
    → All (IsTimely max_timeout) (HashMap.insert id t m)
unfolding HashMap.insert
All-insert max_timeout id t [] h hs = (h, tt)
All-insert max_timeout id t ((j, u) ∷ m) h (h', hs) = elim (Bool-cases (text_beq j id)) [
  | inl e ↦ rw e (h, hs)
  | inr e ↦ rw e (h', All-insert max_timeout id t m h hs)
]

get-timely :
    (max_timeout : ℕ) (id : Text) (m : HashMap Text ℕ)
    → All (IsTimely max_timeout) m
    → or_max max_timeout (HashMap.get id m) ≤ max_timeout
unfolding HashMap.get
get-timely max_timeout id [] hs = omega arith
get-timely max_timeout id ((j, u) ∷ m) (h, hs) = elim (Bool-cases (text_beq j id)) [
  | inl e ↦ rw e h
  | inr e ↦ rw e (get-timely max_timeout id m hs)
]

module _ {F : Type 0} where
  trip_of-le :
      (max_timeout : ℕ) (trip_ms : HashMap Text ℕ) (node : Consensor F)
      → All (IsTimely max_timeout) trip_ms
      → trip_of trip_ms max_timeout node ≤ max_timeout
  unfolding trip_of
  trip_of-le max_timeout trip_ms node h = get-timely max_timeout node.id trip_ms h

module _ {F : Type 0} ⦃o : Floats F⦄ (laws : SignLaws o) where
  IsNonneg-calculate_bias :
      (t max_timeout : ℕ)
      → t ≤ max_timeout
      → 0 < max_timeout
      → IsNonneg o (calculate_bias t max_timeout)
  unfolding calculate_bias
  IsNonneg-calculate_bias t m h pos = elim (Bool-cases (m == 1)) [
    | inl e ↦ rw e laws.one_nonneg
    | inr e ↦
        rw (e, laws.sub_zero (o.of_nat t), laws.sub_zero (o.of_nat m))
          (laws.sub_nonneg _ (laws.div_at_most_one t m h pos))
  ]

  pub IsNonneg-accumulate :
      (trip_ms : HashMap Text ℕ) (max_timeout : ℕ) (nodes : List (Consensor F)) (d total : F)
      → All (IsTimely max_timeout) trip_ms
      → 0 < max_timeout
      → IsNonneg o d
      → IsNonneg o total
      → IsNonneg o (last_or d (accumulate total (map (set_bias trip_ms max_timeout) nodes)))
  unfolding accumulate set_bias
  IsNonneg-accumulate trip_ms m [] d total h pos hd ht = hd
  IsNonneg-accumulate trip_ms m (node ∷ nodes) d total h pos hd ht =
      let next =
        laws.add_nonneg total (calculate_bias (trip_of trip_ms m node) m) ht
          (IsNonneg-calculate_bias (trip_of trip_ms m node) m (trip_of-le m trip_ms node h) pos) in
      IsNonneg-accumulate trip_ms m nodes _ _ h pos next next
