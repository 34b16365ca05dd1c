-- ===== src/Liberdus/Sound/Laws.antt =====
-- The operations on the node list keep it sound.
use liberdus_proxy.Prelude.{
  if-P, ℕ, ◌≤◌, ◌≡◌, refl, true, none, some, List, map, Text, text_eq, All, returned, panicked,
}
use liberdus_proxy.Liberdus.Float.{Floats, FloatLaws, Rng, RngLaws}
use liberdus_proxy.Liberdus.State.{Consensor, Liberdus, install, set_consensor_trip_ms, run_pending}
use liberdus_proxy.Liberdus.Prepare.{trip_of, set_bias, sort_by, prepare_list}
use liberdus_proxy.Liberdus.Prepare.Result.{length-accumulate}
use liberdus_proxy.Liberdus.Select.{Choice, advance_index, get_next_appropriate_consensor}
use liberdus_proxy.Liberdus.Select.Serves.{
  IsDrawable, Serves, Serves-get_next_appropriate_consensor,
}
use liberdus_proxy.Liberdus.Sound.{SignLaws, IsTimely, IsSound}
use liberdus_proxy.Liberdus.Select.Leaves.{Leaves, IsClosed, Leaves-next}
use liberdus_proxy.Liberdus.Sound.Biases.{All-insert, IsNonneg-accumulate}

module _ {F : Type 0} ⦃o : Floats F⦄ where
  -- The call returns, and the state that it leaves is sound.
  abbrev pub ServesSoundly : ℕ → Choice F → Type 0
  ServesSoundly m panicked = ⊥
  ServesSoundly m (returned (_, s)) = IsSound o m s

module _ {F : Type 0} ⦃o : Floats F⦄ (laws : SignLaws o) where
  module _ (max_timeout : ℕ) where
    pub IsSound-prepare_list :
        (s : Liberdus F) → IsSound o max_timeout s → IsSound o max_timeout (prepare_list s)
    unfolding prepare_list
    IsSound-prepare_list s v =
        let sorted = sort_by (trip_of s.trip_ms s.config.max_http_timeout_ms) s.active_nodelist in
        if-P (IsSound o max_timeout) s.list_prepared s _ (λ e. v)
          λ e. record {
            well_formed = λ p.
                length-accumulate (map (set_bias s.trip_ms s.config.max_http_timeout_ms) sorted)
                  o.float_zero;
            timeout_pos = v.timeout_pos;
            timeout = v.timeout;
            recorded = v.recorded;
            spawned = v.spawned;
            weights = λ p. rw v.timeout (
                IsNonneg-accumulate laws s.trip_ms max_timeout
                  (sort_by (trip_of s.trip_ms max_timeout) s.active_nodelist) o.float_one
                  o.float_zero v.recorded v.timeout_pos laws.one_nonneg laws.zero_nonneg);
          }

    prepare_list-prepared : (s : Liberdus F) → (prepare_list s).list_prepared ≡ true
    unfolding prepare_list
    prepare_list-prepared s =
        if-P (λ (t : Liberdus F). t.list_prepared ≡ true) s.list_prepared s _ (λ e. e) (λ e. refl)

    pub IsDrawable-prepare_list :
        (s : Liberdus F) → IsSound o max_timeout s → IsDrawable (prepare_list s)
    IsDrawable-prepare_list s v = (IsSound-prepare_list s v).weights (prepare_list-prepared s)

    IsSound-advance_index :
        (s : Liberdus F) → IsSound o max_timeout s → IsSound o max_timeout (advance_index s)
    unfolding advance_index
    IsSound-advance_index s v = record {
      well_formed = v.well_formed;
      timeout_pos = v.timeout_pos;
      timeout = v.timeout;
      recorded = v.recorded;
      spawned = v.spawned;
      weights = v.weights;
    }

    pub IsClosed-IsSound : IsClosed o (IsSound o max_timeout)
    IsClosed-IsSound = record {
      prepared = IsSound-prepare_list;
      advanced = IsSound-advance_index;
      unprepared = λ s v. record {
        well_formed = λ p. absurd (cc);
        timeout_pos = v.timeout_pos;
        timeout = v.timeout;
        recorded = v.recorded;
        spawned = v.spawned;
        weights = λ p. absurd (cc);
      };
    }

    pub LeavesSound-next :
        (rng : Rng F) (s : Liberdus F)
        → IsSound o max_timeout s
        → Leaves (IsSound o max_timeout) (get_next_appropriate_consensor rng s)
    LeavesSound-next = Leaves-next (IsSound o max_timeout) IsClosed-IsSound

    both :
        (c : Choice F) → Serves c → Leaves (IsSound o max_timeout) c → ServesSoundly max_timeout c
    both panicked h v = absurd h
    both (returned (none, s)) h v = v
    both (returned (some (index, node), s)) h v = v

    pub ServesSoundly-next :
        FloatLaws o
        → (rng : Rng F) → RngLaws o rng
        → (s : Liberdus F) → IsSound o max_timeout s
        → ServesSoundly max_timeout (get_next_appropriate_consensor rng s)
    ServesSoundly-next float_laws rng draws s v =
        both (get_next_appropriate_consensor rng s)
          (Serves-get_next_appropriate_consensor float_laws rng draws s v.well_formed
            (IsDrawable-prepare_list s v))
          (LeavesSound-next rng s v)

    pub IsSound-set_consensor_trip_ms :
        (id : Text) (t : ℕ) (s : Liberdus F)
        → t ≤ max_timeout
        → IsSound o max_timeout s
        → IsSound o max_timeout (set_consensor_trip_ms id t s)
    unfolding set_consensor_trip_ms
    IsSound-set_consensor_trip_ms id t s h v =
        if-P (IsSound o max_timeout) s.list_prepared s _ (λ e. v)
          λ e. record {
            well_formed = v.well_formed;
            timeout_pos = v.timeout_pos;
            timeout = v.timeout;
            recorded = v.recorded;
            spawned = (h, v.spawned);
            weights = v.weights;
          }

    pub IsSound-run_pending :
        (id : Text) (t : ℕ) (rest : List (Text × ℕ)) (s : Liberdus F)
        → t ≤ max_timeout
        → All (IsTimely max_timeout) rest
        → IsSound o max_timeout s
        → IsSound o max_timeout (run_pending (id, t) rest s)
    unfolding run_pending
    IsSound-run_pending id t rest s h hs v = record {
      well_formed = v.well_formed;
      timeout_pos = v.timeout_pos;
      timeout = v.timeout;
      recorded = All-insert max_timeout id t s.trip_ms h v.recorded;
      spawned = hs;
      weights = v.weights;
    }

    pub IsSound-install :
        (nodes : List (Consensor F)) (s : Liberdus F)
        → IsSound o max_timeout s
        → IsSound o max_timeout (install nodes s)
    unfolding install
    IsSound-install nodes s v = record {
      well_formed = λ p. absurd (cc);
      timeout_pos = v.timeout_pos;
      timeout = v.timeout;
      recorded = tt;
      spawned = v.spawned;
      weights = λ p. laws.one_nonneg;
    }
