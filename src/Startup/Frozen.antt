-- ===== src/Startup/Frozen.antt =====
-- After a refresh that has panicked.
use mathlib.Core.Path.{subst}
use mathlib.Core.List.{Perm}
use mathlib.Core.List.Perm
use liberdus_proxy.Prelude.{if-P, ◌≡◌, refl, sym, Bool-cases, inl, inr, false, List, map}
use liberdus_proxy.Liberdus.Float.{Floats}
use liberdus_proxy.Liberdus.State.{Consensor, Liberdus, set_consensor_trip_ms, run_pending}
use liberdus_proxy.Liberdus.Prepare.{prepare_list}
use liberdus_proxy.Liberdus.Prepare.Result.{forget_bias, prepare_list_lem}
use liberdus_proxy.Liberdus.Select.{advance_index}
use liberdus_proxy.Liberdus.Select.Leaves.{Leaves, IsClosed, Leaves-next}
use liberdus_proxy.Liberdus.Select.Serves.{prepare_list_of_prepared}
use liberdus_proxy.Liberdus.Sound.Steps.{
  Step, refreshes, discovers, inserts, chooses, choice_died, unchanged, prepared, records,
}
use liberdus_proxy.Startup.{
  System, discover_shared, IsRequest, Tick, refreshed, refresh_died, discovered, listens, serves,
  Ticks, idle, ticks,
}

module _ {F : Type 0} where
  -- The nodes of `l`, up to their order and their biases.
  pub HasNodes : List (Consensor F) → Liberdus F → Type 0
  HasNodes nodes s = Perm (map forget_bias s.active_nodelist) (map forget_bias nodes)

module _ {F : Type 0} ⦃o : Floats F⦄ where
  HasNodes-prepare_list :
      (nodes : List (Consensor F)) (s : Liberdus F)
      → HasNodes nodes s
      → HasNodes nodes (prepare_list s)
  unfolding HasNodes
  HasNodes-prepare_list nodes s h = elim (Bool-cases s.list_prepared) [
    | inl e ↦ subst (HasNodes nodes) (sym (prepare_list_of_prepared s e)) h
    | inr e ↦ Perm.trans (prepare_list_lem s e).0 h
  ]

  IsClosed-HasNodes : (nodes : List (Consensor F)) → IsClosed o (HasNodes nodes)
  unfolding HasNodes advance_index
  IsClosed-HasNodes nodes = record {
    prepared = HasNodes-prepare_list nodes;
    advanced = λ s h. h;
    unprepared = λ s h. h;
  }

  HasNodes-request :
      (nodes : List (Consensor F)) (s t : Liberdus F) (step : Step s t)
      → IsRequest step
      → HasNodes nodes s
      → HasNodes nodes t
  unfolding HasNodes run_pending set_consensor_trip_ms advance_index
  HasNodes-request nodes s _ (refreshes list) h v = absurd h
  HasNodes-request nodes s _ (discovers archivers) h v = absurd h
  HasNodes-request nodes s _ (inserts before rest id t e) h v = v
  HasNodes-request nodes s _ (chooses rng chosen t e) h v =
      subst (Leaves (HasNodes nodes)) e
        (Leaves-next (HasNodes nodes) (IsClosed-HasNodes nodes) rng s v)
  HasNodes-request nodes s _ (choice_died rng t e unchanged) h v = v
  HasNodes-request nodes s _ (choice_died rng t e prepared) h v =
      HasNodes-prepare_list nodes (advance_index s) v
  HasNodes-request nodes s _ (records id t) h v =
      if-P (HasNodes nodes) s.list_prepared s _ (λ e. v) (λ e. v)

module _ {F C : Type 0} ⦃o : Floats F⦄ where
  -- The refreshing task is dead, and the nodes are those.
  IsFrozen : List (Consensor F) → System F C → Type 0
  IsFrozen nodes s = (s.is_refreshing ≡ false) × HasNodes nodes s.liberdus

  IsFrozen-Tick :
      (nodes : List (Consensor F)) (s t : System F C)
      → Tick s t
      → IsFrozen nodes s
      → IsFrozen nodes t
  unfolding IsFrozen HasNodes discover_shared
  IsFrozen-Tick nodes s _ (refreshed fetch t alive e) (dead, v) = absurd (cc)
  IsFrozen-Tick nodes s _ (refresh_died fetch alive e) (dead, v) = (refl, v)
  IsFrozen-Tick nodes s _ (discovered arrive) (dead, v) = (dead, v)
  IsFrozen-Tick nodes s _ (listens h) (dead, v) = (dead, v)
  IsFrozen-Tick nodes s _ (serves l step h is_request) (dead, v) =
      (dead, HasNodes-request nodes s.liberdus l step is_request v)

  IsFrozen-Ticks :
      (nodes : List (Consensor F)) (s t : System F C)
      → Ticks s t
      → IsFrozen nodes s
      → IsFrozen nodes t
  IsFrozen-Ticks nodes s _ idle v = v
  IsFrozen-Ticks nodes s _ (ticks {t} {u} before tick) v =
      IsFrozen-Tick nodes t u tick (IsFrozen-Ticks nodes s t before v)

  -- Once a panic has ended the refreshing task, the nodes are the same, up to their order and their
  -- biases, in every state that the other tasks and the requests reach, with those requests that
  -- panic or take longer than the timeout. A call for a node counts as one step.
  pub Ticks-HasNodes :
      (s t : System F C)
      → s.is_refreshing ≡ false
      → Ticks s t
      → HasNodes s.liberdus.active_nodelist t.liberdus
  unfolding IsFrozen HasNodes
  Ticks-HasNodes s t dead later =
      (IsFrozen-Ticks s.liberdus.active_nodelist s t later (dead, Perm.refl _)).1
