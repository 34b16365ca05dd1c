-- ===== src/Collector/Listen.antt =====
-- `listen_account_update` of src/collector.rs, which src/ws.rs has switched off.
use liberdus_proxy.Prelude.{List, [], ◌∷◌, ◌++◌, Text, Result, ok, err, Option}
use liberdus_proxy.Subscription.{SocketId, Inner}
use liberdus_proxy.Subscription.Invariant.{IsConsistent}
use liberdus_proxy.Subscription.Callback.{AccountUpdate, Delivery, listen_account_update_callback}
use liberdus_proxy.Subscription.Callback.Laws.{callback-IsConsistent}

-- What the socket yields: a text or binary message, another, or an error.
pub data Frame : Type 0 where
  payload : Text → Frame
  other broken : Frame

-- One round of the loop: no connection, or one with what it yields up to its end.
pub data Attempt : Type 0 where
  refused : Attempt
  connected : List Frame → Attempt

-- The payloads for which a task is spawned; an error ends the connection.
unfoldable pub spawned : List Frame → List Text
spawned [] = []
spawned (payload p ∷ frames) = p ∷ spawned frames
spawned (other ∷ frames) = spawned frames
spawned (broken ∷ frames) = []

unfoldable pub listen_account_update : List Attempt → List Text
listen_account_update [] = []
listen_account_update (refused ∷ attempts) = listen_account_update attempts
listen_account_update (connected frames ∷ attempts) =
    spawned frames ++ listen_account_update attempts

module _ (from_slice : Text → Result Text (Option AccountUpdate))
    (delivery : SocketId → Delivery) where
  -- The task of one payload: what is no JSON panics the task alone. `none` is JSON of another form.
  unfoldable pub run_task : Text → Inner → Inner
  run_task p s = elim (from_slice p) [
    | err e ↦ s
    | ok update ↦ (listen_account_update_callback delivery update s).1
  ]

  unfoldable pub run_tasks : List Text → Inner → Inner
  run_tasks [] s = s
  run_tasks (p ∷ payloads) s = run_tasks payloads (run_task p s)

  run_task-IsConsistent : (p : Text) (s : Inner) → IsConsistent s → IsConsistent (run_task p s)
  unfolding run_task
  run_task-IsConsistent p s h = go (from_slice p)
    where
      go :
          (r : Result Text (Option AccountUpdate))
          → IsConsistent (elim r [
            | err e ↦ s
            | ok update ↦ (listen_account_update_callback delivery update s).1
          ])
      go (err e) = h
      go (ok update) = callback-IsConsistent delivery update s h

  -- The tasks keep the manager consistent, in whichever order they run.
  run_tasks-IsConsistent :
      (payloads : List Text) (s : Inner) → IsConsistent s → IsConsistent (run_tasks payloads s)
  unfolding run_tasks
  run_tasks-IsConsistent [] s h = h
  run_tasks-IsConsistent (p ∷ payloads) s h =
      run_tasks-IsConsistent payloads (run_task p s) (run_task-IsConsistent p s h)
