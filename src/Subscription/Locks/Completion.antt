-- ===== src/Subscription/Locks/Completion.antt =====
-- The acts of the calls that are begun, one after another.
use liberdus_proxy.Prelude.{
  ℕ, zero, suc, ◌+◌, Bool, true, false, ◌||◌, Bool-cases, ◌⊎◌, inl, inr, List, [], ◌∷◌, length, ◌≡◌,
  ◌≢◌, refl, ap, ◌∙◌, arith,
}
use liberdus_proxy.Subscription.Locks.{
  Lock, sockets, states, Mode, Act, take, drop, Task, act_on, any, RwLock, takes, can_do,
  is_enabled, change_at, task_at, proceeds, Reach, next,
}
use liberdus_proxy.Subscription.Locks.Progress.{is_busy, is_unobstructed, Reach-unobstructed}

-- So many acts of the tasks, in any order in which they can be done.
pub data Run {Queue : Type 0} (rw_lock : RwLock Queue) (tasks : List Task)
    : ℕ → List Task → Type 0 where
  here : Run rw_lock tasks 0 tasks
  act :
      {n : ℕ} {t : List Task}
      → Run rw_lock tasks n t
      → (queue : Queue) (i : ℕ) → is_enabled rw_lock queue i t ≡ true
      → Run rw_lock tasks (n + 1) (change_at i (λ t. act_on t.rest t) t)

-- The acts that are left.
abbrev pub left : List Task → ℕ
left [] = 0
left (t ∷ tasks) = length t.rest + left tasks

false≢true : false ≢ true
false≢true h = ground (arith, h)

length-act_on :
    (rest : List Act) (t : Task)
    → is_busy rest ≡ true
    → length (act_on rest t).rest + 1 ≡ length rest
unfolding act_on
length-act_on [] t busy = absurd (false≢true busy)
length-act_on (take sockets mode ∷ rest) t busy = omega arith
length-act_on (take states mode ∷ rest) t busy = omega arith
length-act_on (drop sockets ∷ rest) t busy = omega arith
length-act_on (drop states ∷ rest) t busy = omega arith

left-change_at :
    (i : ℕ) (tasks : List Task)
    → is_busy (task_at i tasks) ≡ true
    → left (change_at i (λ t. act_on t.rest t) tasks) + 1 ≡ left tasks
unfolding change_at
left-change_at i [] busy = absurd (false≢true busy)
left-change_at zero (t ∷ tasks) busy = let less = length-act_on t.rest t busy in omega arith
left-change_at (suc i) (t ∷ tasks) busy = let less = left-change_at i tasks busy in omega arith

can_do-busy : (granted : Bool) (rest : List Act) → can_do granted rest ≡ true → is_busy rest ≡ true
can_do-busy granted [] e = e
can_do-busy granted (a ∷ rest) e = refl

Run-left :
    {Queue : Type 0} {rw_lock : RwLock Queue} {tasks t : List Task} {n : ℕ}
    → Run rw_lock tasks n t
    → n + left t ≡ left tasks
unfolding is_enabled
Run-left {Queue} {rw_lock} {tasks} here = omega arith
Run-left {Queue} {rw_lock} {tasks} (act {n} {t} run queue i e) =
    let before = Run-left run in
    let less = left-change_at i t (can_do-busy (rw_lock.is_granted queue i t) (task_at i t) e) in
    omega arith

Run-Reach :
    {Queue : Type 0} {rw_lock : RwLock Queue} {tasks t : List Task} {n : ℕ}
    → Reach rw_lock tasks
    → Run rw_lock tasks n t
    → Reach rw_lock t
Run-Reach reach here = reach
Run-Reach reach (act run queue i e) = next (Run-Reach reach run) (proceeds queue i e)

-- Where something is left, some task has it.
busy_of : (tasks : List Task) → left tasks ≢ 0 → any (λ t. is_busy t.rest) tasks ≡ true
busy_of [] some_left = absurd (some_left refl)
busy_of (t ∷ tasks) some_left = busy_in t.rest (busy_of tasks) some_left
  where
    busy_in :
        (rest : List Act)
        → (left tasks ≢ 0 → any (λ t. is_busy t.rest) tasks ≡ true)
        → (length rest + left tasks) ≢ 0
        → (is_busy rest || any (λ t. is_busy t.rest) tasks) ≡ true
    busy_in [] later h = later (λ e. h (omega (arith, e)))
    busy_in (a ∷ rest) later h = refl

index_of :
    (p : List Act → Bool) (tasks : List Task)
    → p [] ≡ false
    → any (λ t. p t.rest) tasks ≡ true
    → (i : ℕ) × (p (task_at i tasks) ≡ true)
index_of p [] h e = absurd (false≢true e)
index_of p (t ∷ tasks) h e = elim (Bool-cases (p t.rest)) [
  | inl e' ↦ (0, e')
  | inr e' ↦
      let later : any (λ t. p t.rest) tasks ≡ true = ground (arith, e, e') in
      let found = index_of p tasks h later in (suc (found.0), found.1)
]

can_do-takes : (lock : Lock) (rest : List Act) → takes lock rest ≡ true → can_do true rest ≡ true
can_do-takes lock (take l mode ∷ rest) e = refl
can_do-takes lock (drop l ∷ rest) e = refl
can_do-takes sockets [] e = e
can_do-takes states [] e = e

takes_own :
    (lock : Lock) (mode : Mode) (rest : List Act) → takes lock (take lock mode ∷ rest) ≡ true
takes_own sockets mode rest = refl
takes_own states mode rest = refl

module _ {Queue : Type 0} (rw_lock : RwLock Queue) (queue : Queue) (tasks : List Task) where
  -- A task that is not obstructed can go on, or another that wants the same lock.
  enabled_of :
      (i : ℕ) (rest : List Act)
      → task_at i tasks ≡ rest
      → is_unobstructed tasks rest ≡ true
      → (j : ℕ) × (is_enabled rw_lock queue j tasks ≡ true)
  unfolding is_enabled
  enabled_of i [] e free = absurd (false≢true free)
  enabled_of i (take lock mode ∷ rest) e free =
      let granted =
        rw_lock.is_granted-free queue lock tasks free i
          (ap (takes lock) e ∙ takes_own lock mode rest) in
      (granted.0, rw (granted.2) (can_do-takes lock (task_at (granted.0) tasks) (granted.1)))
  enabled_of i (drop lock ∷ rest) e free = (i, ap (can_do (rw_lock.is_granted queue i tasks)) e)

left-cases : (n : ℕ) → (n ≡ 0) ⊎ (n ≢ 0)
left-cases zero = inl refl
left-cases (suc n) = inr (λ h. omega arith)

-- With locks that go to a task that wants them where nobody has a guard, whatever calls the tasks have
-- begun and whichever tasks ended early: acts that are done in any order are as many as are no longer
-- left, and as long as one is left, some task can do its next act, whoever waits. So no order of the
-- calls deadlocks, and all that are begun come to their ends.
pub Run-ends :
    {Queue : Type 0} {rw_lock : RwLock Queue} {tasks t : List Task} {n : ℕ}
    → Reach rw_lock tasks
    → Run rw_lock tasks n t
    → (n + left t ≡ left tasks)
      × ((left t ≡ 0) ⊎ ((queue : Queue) → (i : ℕ) × (is_enabled rw_lock queue i t ≡ true)))
Run-ends {Queue} {rw_lock} {tasks} {t} reach run = (
  Run-left run,
  elim (left-cases (left t)) [
    | inl e ↦ inl e
    | inr some_left ↦
        let found =
          index_of (is_unobstructed t) t refl
            (Reach-unobstructed (Run-Reach reach run) (busy_of t some_left)) in
        inr (λ queue. enabled_of rw_lock queue t (found.0) (task_at (found.0) t) refl (found.1))
  ],
)
