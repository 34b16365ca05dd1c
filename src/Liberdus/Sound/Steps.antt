-- ===== src/Liberdus/Sound/Steps.antt =====
-- The tasks that share the node list, in any order. A refresh and a call for a node are one step each:
-- what other tasks do between the stores of one is not among the steps.
use mathlib.Core.Path.{subst}
use liberdus_proxy.Prelude.{
  ℕ, ◌≤◌, ◌<◌, ◌≡◌, refl, Option, List, [], ◌∷◌, ◌++◌, Text, All, arith, returned, panicked,
}
use liberdus_proxy.Config.{Config}
use liberdus_proxy.Liberdus.Float.{Floats, Rng}
use liberdus_proxy.Liberdus.State.{
  Consensor, Archiver, Liberdus, new, install, set_consensor_trip_ms, run_pending,
}
use liberdus_proxy.Liberdus.Prepare.{prepare_list}
use liberdus_proxy.Liberdus.Select.{advance_index, get_next_appropriate_consensor}
use liberdus_proxy.Liberdus.Select.Leaves.{Leaves}
use liberdus_proxy.Liberdus.Sound.{SignLaws, IsTimely, IsSound}
use liberdus_proxy.Liberdus.Sound.Laws.{
  LeavesSound-next, IsClosed-IsSound, IsSound-prepare_list, IsSound-set_consensor_trip_ms,
  IsSound-run_pending, IsSound-install,
}

All-middle :
    (m t : ℕ) (id : Text) (before rest : List (Text × ℕ))
    → All (IsTimely m) (before ++ ((id, t) ∷ rest))
    → (t ≤ m) × All (IsTimely m) (before ++ rest)
All-middle m t id [] rest (h, hs) = (h, hs)
All-middle m t id (p ∷ before) rest (h, hs) =
    let (h', hs') = All-middle m t id before rest hs in (h', (h, hs'))

module _ {F : Type 0} ⦃o : Floats F⦄ where
  -- The state that a call leaves which panics in its draw or its index: as it was, or prepared.
  pub data Unwound (s : Liberdus F) : Liberdus F → Type 0 where
    unchanged : Unwound s s
    prepared : Unwound s (prepare_list (advance_index s))

  -- A refresh of the nodes or of the archivers; a spawned insert that runs; a call for a node, which
  -- may panic; and a trip time that is recorded.
  pub data Step (s : Liberdus F) : Liberdus F → Type 0 where
    refreshes : (nodes : List (Consensor F)) → Step s (install nodes s)
    discovers : (archivers : List Archiver) → Step s (record s { archivers = archivers })
    inserts :
        (before rest : List (Text × ℕ)) (id : Text) (t : ℕ)
        → s.pending ≡ before ++ ((id, t) ∷ rest)
        → Step s (run_pending (id, t) (before ++ rest) s)
    chooses :
        (rng : Rng F) (chosen : Option (ℕ × Consensor F)) (t : Liberdus F)
        → get_next_appropriate_consensor rng s ≡ returned (chosen, t)
        → Step s t
    choice_died :
        (rng : Rng F) (t : Liberdus F)
        → get_next_appropriate_consensor rng s ≡ panicked
        → Unwound s t
        → Step s t
    records : (id : Text) (t : ℕ) → Step s (set_consensor_trip_ms id t s)

  -- A trip time is within the timeout. `send` does not ensure it: reading a response has no timeout.
  abbrev pub IsPrompt : {s t : Liberdus F} → Step s t → Type 0
  IsPrompt {s} (records id t) = t ≤ s.config.max_http_timeout_ms
  IsPrompt _ = Unit

  -- Steps in which each recorded trip time is within the timeout.
  pub data PromptRun (s : Liberdus F) : Liberdus F → Type 0 where
    here : PromptRun s s
    next : {t u : Liberdus F} → PromptRun s t → (step : Step t u) → IsPrompt step → PromptRun s u

  pub PromptRun-append :
      {s r : Liberdus F} → (u : Liberdus F) → PromptRun s r → PromptRun r u → PromptRun s u
  PromptRun-append _ before here = before
  PromptRun-append _ before (next {t} {u} after step prompt) =
      next (PromptRun-append t before after) step prompt

  module _ (laws : SignLaws o) (m : ℕ) where
    IsSound-Step :
        (s t : Liberdus F) (step : Step s t) → IsPrompt step → IsSound o m s → IsSound o m t
    IsSound-Step s _ (refreshes nodes) prompt v = IsSound-install laws m nodes s v
    IsSound-Step s _ (discovers archivers) prompt v = record {
      well_formed = v.well_formed;
      timeout_pos = v.timeout_pos;
      timeout = v.timeout;
      recorded = v.recorded;
      spawned = v.spawned;
      weights = v.weights;
    }
    IsSound-Step s _ (inserts before rest id t e) prompt v =
        let (h, hs) = All-middle m t id before rest (subst (All (IsTimely m)) e v.spawned) in
        IsSound-run_pending laws m id t (before ++ rest) s h hs v
    IsSound-Step s _ (chooses rng chosen t e) prompt v =
        subst (Leaves (IsSound o m)) e (LeavesSound-next laws m rng s v)
    IsSound-Step s _ (choice_died rng t e unchanged) prompt v = v
    IsSound-Step s _ (choice_died rng t e prepared) prompt v =
        IsSound-prepare_list laws m (advance_index s) ((IsClosed-IsSound laws m).advanced s v)
    IsSound-Step s _ (records id t) h v =
        IsSound-set_consensor_trip_ms laws m id t s (omega (arith, h, v.timeout)) v

    pub IsSound-PromptRun : (s t : Liberdus F) → PromptRun s t → IsSound o m s → IsSound o m t
    IsSound-PromptRun s _ here v = v
    IsSound-PromptRun s _ (next {t} {u} before step prompt) v =
        IsSound-Step t u step prompt (IsSound-PromptRun s t before v)

  -- With the laws of the floats' signs: from a new state whose longest timeout is not 0, and as long as
  -- no trip time above it is recorded, every state that the tasks reach has as many weights as nodes
  -- and a last weight that is not below 0.0, if it is prepared. A refresh and a call for a node count as
  -- one step each, which the code does not ensure.
  pub PromptRun-IsSound :
      SignLaws o
      → (archivers : List Archiver) (config : Config) (s : Liberdus F)
      → 0 < config.max_http_timeout_ms
      → PromptRun (new archivers config) s
      → IsSound o config.max_http_timeout_ms s
  unfolding new
  PromptRun-IsSound laws archivers config s pos run =
      IsSound-PromptRun laws config.max_http_timeout_ms (new archivers config) s run (record {
        well_formed = λ p. absurd (cc);
        timeout_pos = pos;
        timeout = refl;
        recorded = tt;
        spawned = tt;
        weights = λ p. laws.one_nonneg;
      })
