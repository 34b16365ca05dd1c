-- ===== src/Subscription/Locks.antt =====
-- The two locks that the manager and the connections share, `states` of src/subscription.rs and the
-- sockets' map of src/ws.rs: what each call takes and drops, and the tasks that make the calls.
pub mod Progress
pub mod Completion
mod Tests
use liberdus_proxy.Prelude.{
  ℕ, zero, suc, Bool, true, false, not, ◌||◌, Option, none, some, List, [], ◌∷◌, ◌++◌,
  if◌then◌else◌, ◌≡◌,
}

pub data Lock : Type 0 where
  sockets states : Lock

pub data Mode : Type 0 where
  reads writes : Mode

pub data Act : Type 0 where
  take : Lock → Mode → Act
  drop : Lock → Act

abbrev pub reading : List Act
reading = take states reads ∷ drop states ∷ []

abbrev pub writing : List Act
writing = take states writes ∷ drop states ∷ []

-- `remove_states` for each of so many accounts.
unfoldable pub removing : ℕ → List Act
removing zero = []
removing (suc n) = writing ++ removing n

-- `unsubscribe_all` of a socket with so many accounts; one without an entry has none.
unfoldable pub unsubscribing : ℕ → List Act
unsubscribing n = reading ++ removing n

-- A socket of the callback's loop takes the message, or is dropped from so many accounts, while the
-- guard of the sockets' map is held.
pub data Target : Type 0 where
  hears : Target
  dropped : ℕ → Target

unfoldable pub telling : List Target → List Act
unfolding unsubscribing
telling [] = []
telling (hears ∷ targets) = take sockets reads ∷ drop sockets ∷ telling targets
telling (dropped n ∷ targets) =
    take sockets reads ∷ (unsubscribing n ++ drop sockets ∷ telling targets)

-- The callback's ends: nobody follows the account, the timestamp is not above the last one, or it is
-- told.
pub data Update : Type 0 where
  untracked stale : Update
  fresh : List Target → Update

unfoldable pub updating : Update → List Act
updating untracked = reading
updating stale = reading ++ writing
updating (fresh targets) = reading ++ writing ++ reading ++ telling targets

-- The connection's entry in the sockets' map.
abbrev pub inserting : List Act
inserting = take sockets writes ∷ drop sockets ∷ []

-- A close message: the map's guard is held until the socket follows no account.
unfoldable pub closing : ℕ → List Act
unfolding unsubscribing
closing n = take sockets writes ∷ (unsubscribing n ++ drop sockets ∷ [])

-- What a task may call, with what the call finds.
pub data Call : Type 0 where
  -- Whether the pair is there.
  to_subscribe to_unsubscribe : Bool → Call
  to_unsubscribe_all : ℕ → Call
  to_get_all_subscriptions : Call
  to_update : Update → Call
  to_insert : Call
  to_close : ℕ → Call

unfoldable pub acts : Call → List Act
unfolding unsubscribing updating telling closing
acts (to_subscribe there) = if there then reading else (reading ++ writing)
acts (to_unsubscribe there) = if there then (reading ++ writing) else reading
acts (to_unsubscribe_all n) = unsubscribing n
acts to_get_all_subscriptions = reading
acts (to_update u) = updating u
acts to_insert = inserting
acts (to_close n) = closing n

-- A task: the guards that it holds, and what it has left to do.
pub record Task : Type 0 where
  pub sockets_guard : Option Mode
  pub states_guard : Option Mode
  pub rest : List Act

-- The next act of a task is done.
unfoldable pub act_on : List Act → Task → Task
act_on [] t = t
act_on (take sockets mode ∷ rest) t = record t { sockets_guard = some mode; rest = rest }
act_on (take states mode ∷ rest) t = record t { states_guard = some mode; rest = rest }
act_on (drop sockets ∷ rest) t = record t { sockets_guard = none; rest = rest }
act_on (drop states ∷ rest) t = record t { states_guard = none; rest = rest }

abbrev pub any : (Task → Bool) → List Task → Bool
any p [] = false
any p (t ∷ tasks) = p t || any p tasks

abbrev pub guard : Lock → Task → Option Mode
guard sockets t = t.sockets_guard
guard states t = t.states_guard

abbrev pub is_some : Option Mode → Bool
is_some none = false
is_some (some mode) = true

abbrev pub is_free : Lock → List Task → Bool
is_free lock tasks = not (any (λ t. is_some (guard lock t)) tasks)

-- The task at an index is replaced; beyond the list nothing is.
unfoldable pub change_at : ℕ → (Task → Task) → List Task → List Task
change_at i f [] = []
change_at zero f (t ∷ tasks) = f t ∷ tasks
change_at (suc i) f (t ∷ tasks) = t ∷ change_at i f tasks

abbrev pub task_at : ℕ → List Task → List Act
task_at i [] = []
task_at zero (t ∷ tasks) = t.rest
task_at (suc i) (t ∷ tasks) = task_at i tasks

-- A task that panics or is aborted drops its guards.
abbrev pub gone : Task
gone = record { sockets_guard = none; states_guard = none; rest = [] }

abbrev pub takes : Lock → List Act → Bool
takes sockets (take sockets mode ∷ rest) = true
takes states (take states mode ∷ rest) = true
takes lock rest = false

-- Tokio's lock: whether the task at an index is granted the lock that it takes next, beside the guards
-- that the tasks hold and with those that wait in a queue. A lock without a guard goes to one of the
-- tasks that want it.
pub record RwLock (Queue : Type 0) : Type 0 where
  pub is_granted : Queue → ℕ → List Task → Bool
  pub is_granted-free :
      (queue : Queue) (lock : Lock) (tasks : List Task)
      → is_free lock tasks ≡ true
      → (i : ℕ) → takes lock (task_at i tasks) ≡ true
      → (j : ℕ) × (takes lock (task_at j tasks) ≡ true) × (is_granted queue j tasks ≡ true)

abbrev pub can_do : Bool → List Act → Bool
can_do granted [] = false
can_do granted (take lock mode ∷ rest) = granted
can_do granted (drop lock ∷ rest) = true

module _ {Queue : Type 0} (rw_lock : RwLock Queue) where
  -- The task can do its next act.
  unfoldable pub is_enabled : Queue → ℕ → List Task → Bool
  is_enabled queue i tasks = can_do (rw_lock.is_granted queue i tasks) (task_at i tasks)

  -- A call is begun, a task does its next act where it can, or a task ends early.
  pub data Step (tasks : List Task) : List Task → Type 0 where
    begins :
        (call : Call)
        → Step tasks
            (record { sockets_guard = none; states_guard = none; rest = acts call } ∷ tasks)
    proceeds :
        (queue : Queue) (i : ℕ)
        → is_enabled queue i tasks ≡ true
        → Step tasks (change_at i (λ t. act_on t.rest t) tasks)
    aborts : (i : ℕ) → Step tasks (change_at i (λ t. gone) tasks)

  pub data Reach : List Task → Type 0 where
    idle : Reach []
    next : {s t : List Task} → Reach s → Step s t → Reach t
