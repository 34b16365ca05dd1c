-- ===== src/Subscription/Locks/Tests.antt =====
-- The theorem on the calls' ends at a close that waits behind a subscription.
use liberdus_proxy.Prelude.{
  ℕ, ◌+◌, Bool, true, false, not, ◌||◌, Option, arith, List, [], ◌∷◌, none, some, ◌≡◌, ◌⊎◌, refl,
}
use liberdus_proxy.Subscription.Locks.{
  Task, Act, Lock, Mode, RwLock, guard, is_some, is_free, take, drop, sockets, states, reads,
  writes, writing, any, to_subscribe, to_close, acts, change_at, task_at, takes, is_enabled, act_on,
  removing, Reach, idle, next, begins, proceeds,
}
use liberdus_proxy.Subscription.Locks.Completion.{left, here, act, Run-ends}

abbrev is_writing : Option Mode → Bool
is_writing (some writes) = true
is_writing _ = false

-- A lock that goes to one writer, or to readers, whoever waits.
is_compatible : Mode → Lock → List Task → Bool
is_compatible writes lock tasks = is_free lock tasks
is_compatible reads lock tasks = not (any (λ t. is_writing (guard lock t)) tasks)

not-is_writing :
    (lock : Lock) (m : Option Mode) (tasks : List Task)
    → (is_free lock tasks ≡ true → not (any (λ t. is_writing (guard lock t)) tasks) ≡ true)
    → not (is_some m || any (λ t. is_some (guard lock t)) tasks) ≡ true
    → not (is_writing m || any (λ t. is_writing (guard lock t)) tasks) ≡ true
not-is_writing lock none tasks later free = later free
not-is_writing lock (some m) tasks later free = ground (arith, free)

is_compatible-free :
    (mode : Mode) (lock : Lock) (tasks : List Task)
    → is_free lock tasks ≡ true
    → is_compatible mode lock tasks ≡ true
unfolding is_compatible
is_compatible-free writes lock tasks free = free
is_compatible-free reads lock [] free = refl
is_compatible-free reads lock (t ∷ tasks) free =
    not-is_writing lock (guard lock t) tasks (is_compatible-free reads lock tasks) free

is_granted_next : List Act → List Task → Bool
unfolding is_compatible
is_granted_next (take lock mode ∷ rest) tasks = is_compatible mode lock tasks
is_granted_next rest tasks = true

is_granted_next-free :
    (lock : Lock) (rest : List Act) (tasks : List Task)
    → is_free lock tasks ≡ true
    → takes lock rest ≡ true
    → is_granted_next rest tasks ≡ true
unfolding is_granted_next
is_granted_next-free lock [] tasks free e = refl
is_granted_next-free lock (drop l ∷ rest) tasks free e = refl
is_granted_next-free sockets (take sockets mode ∷ rest) tasks free e =
    is_compatible-free mode sockets tasks free
is_granted_next-free states (take states mode ∷ rest) tasks free e =
    is_compatible-free mode states tasks free
is_granted_next-free sockets (take states mode ∷ rest) tasks free e = ground (arith, e)
is_granted_next-free states (take sockets mode ∷ rest) tasks free e = ground (arith, e)

abbrev unfair : RwLock Unit
unfolding is_granted_next
unfair = record {
  is_granted = λ queue i tasks. is_granted_next (task_at i tasks) tasks;
  is_granted-free =
      λ queue lock tasks free i e. (i, e, is_granted_next-free lock (task_at i tasks) tasks free e);
}

-- The close has the sockets' map and wants `states`, of which the subscription has a guard.
abbrev two : List Task
two =
    record { sockets_guard = none; states_guard = some reads; rest = drop states ∷ writing }
    ∷ record {
      sockets_guard = some writes;
      states_guard = none;
      rest = take states reads ∷ drop states ∷ take states writes ∷ drop states ∷ drop sockets ∷ [];
    }
    ∷ []

two_reached : Reach unfair two
unfolding change_at acts is_compatible is_granted_next unfair is_enabled act_on removing
two_reached =
    next
      (next (next (next idle (begins (to_close 1))) (proceeds tt 0 refl))
        (begins (to_subscribe false)))
      (proceeds tt 0 refl)

-- The subscription has read.
abbrev subscriber_waits : List Task
subscriber_waits =
    record { sockets_guard = none; states_guard = none; rest = writing }
    ∷ record {
      sockets_guard = some writes;
      states_guard = none;
      rest = take states reads ∷ drop states ∷ take states writes ∷ drop states ∷ drop sockets ∷ [];
    }
    ∷ []

Run-ends_example :
    (1 + left subscriber_waits ≡ left two)
    × ((left subscriber_waits ≡ 0)
        ⊎ ((queue : Unit) → (i : ℕ) × (is_enabled unfair queue i subscriber_waits ≡ true)))
unfolding change_at act_on is_enabled is_compatible is_granted_next unfair
Run-ends_example = Run-ends two_reached (act here tt 0 refl)
