-- ===== src/Subscription/Locks/Progress.antt =====
-- The order of the locks, and what obstructs a task.
use liberdus_proxy.Prelude.{
  ℕ, zero, suc, Bool, true, false, not, Bool-cases, inl, inr, Option, none, some, List, [], ◌∷◌,
  ◌++◌, All, ◌≡◌, ◌≢◌, refl, ap, ◌∙◌, arith,
}
use liberdus_proxy.Subscription.Locks.{
  sockets, states, Mode, reads, writes, Act, take, drop, removing, unsubscribing, Target, hears,
  dropped, telling, untracked, stale, fresh, updating, Call, to_subscribe, to_unsubscribe,
  to_unsubscribe_all, to_get_all_subscriptions, to_update, to_insert, to_close, acts, closing, Task,
  RwLock, act_on, any, guard, is_some, is_free, change_at, gone, begins, proceeds, aborts, Reach,
  idle, next,
}

-- The acts keep an order from these guards on: the sockets' map is taken first, neither lock twice,
-- and both are dropped in the end.
keeps_order : List Act → Option Mode → Option Mode → Bool
keeps_order [] none none = true
keeps_order (take sockets mode ∷ rest) none none = keeps_order rest (some mode) none
keeps_order (take states mode ∷ rest) a none = keeps_order rest a (some mode)
keeps_order (drop sockets ∷ rest) (some m) none = keeps_order rest none none
keeps_order (drop states ∷ rest) a (some m) = keeps_order rest a none
keeps_order _ a b = false

IsOrdered : Task → Type 0
IsOrdered t = keeps_order t.rest t.sockets_guard t.states_guard ≡ true

keeps_order-removing :
    (n : ℕ) (rest : List Act) (a : Option Mode)
    → keeps_order (removing n ++ rest) a none ≡ keeps_order rest a none
unfolding removing keeps_order
keeps_order-removing zero rest a = refl
keeps_order-removing (suc n) rest a = keeps_order-removing n rest a

keeps_order-unsubscribing :
    (n : ℕ) (rest : List Act) (a : Option Mode)
    → keeps_order (unsubscribing n ++ rest) a none ≡ keeps_order rest a none
unfolding unsubscribing keeps_order
keeps_order-unsubscribing n rest a = keeps_order-removing n rest a

keeps_order-telling : (targets : List Target) → keeps_order (telling targets) none none ≡ true
unfolding telling keeps_order
keeps_order-telling [] = refl
keeps_order-telling (hears ∷ targets) = keeps_order-telling targets
keeps_order-telling (dropped n ∷ targets) =
    keeps_order-unsubscribing n (drop sockets ∷ telling targets) (some reads)
    ∙ keeps_order-telling targets

removing-IsOrdered : (n : ℕ) → keeps_order (removing n) none none ≡ true
unfolding removing keeps_order
removing-IsOrdered zero = refl
removing-IsOrdered (suc n) = removing-IsOrdered n

acts-IsOrdered : (call : Call) → keeps_order (acts call) none none ≡ true
unfolding acts updating closing keeps_order
acts-IsOrdered (to_subscribe true) = refl
acts-IsOrdered (to_subscribe false) = refl
acts-IsOrdered (to_unsubscribe true) = refl
acts-IsOrdered (to_unsubscribe false) = refl
acts-IsOrdered (to_unsubscribe_all n) = removing-IsOrdered n
acts-IsOrdered to_get_all_subscriptions = refl
acts-IsOrdered (to_update untracked) = refl
acts-IsOrdered (to_update stale) = refl
acts-IsOrdered (to_update (fresh targets)) = keeps_order-telling targets
acts-IsOrdered to_insert = refl
acts-IsOrdered (to_close n) = keeps_order-unsubscribing n (drop sockets ∷ []) (some writes)

false≢true : false ≢ true
false≢true h = ground (arith, h)

keeps_order-act_on :
    (rest : List Act) (a b : Option Mode)
    → keeps_order rest a b ≡ true
    → IsOrdered (act_on rest (record { sockets_guard = a; states_guard = b; rest = rest }))
unfolding keeps_order act_on IsOrdered
keeps_order-act_on [] none none h = refl
keeps_order-act_on [] (some m) b h = absurd (false≢true h)
keeps_order-act_on [] none (some m) h = absurd (false≢true h)
keeps_order-act_on (take sockets mode ∷ rest) none none h = h
keeps_order-act_on (take sockets mode ∷ rest) (some m) b h = absurd (false≢true h)
keeps_order-act_on (take sockets mode ∷ rest) none (some m) h = absurd (false≢true h)
keeps_order-act_on (take states mode ∷ rest) a none h = h
keeps_order-act_on (take states mode ∷ rest) a (some m) h = absurd (false≢true h)
keeps_order-act_on (drop sockets ∷ rest) (some m) none h = h
keeps_order-act_on (drop sockets ∷ rest) (some m) (some n) h = absurd (false≢true h)
keeps_order-act_on (drop sockets ∷ rest) none b h = absurd (false≢true h)
keeps_order-act_on (drop states ∷ rest) a (some m) h = h
keeps_order-act_on (drop states ∷ rest) a none h = absurd (false≢true h)

All-change_at :
    (i : ℕ) (f : Task → Task) (tasks : List Task)
    → ((t : Task) → IsOrdered t → IsOrdered (f t))
    → All IsOrdered tasks
    → All IsOrdered (change_at i f tasks)
unfolding change_at
All-change_at i f [] keeps h = tt
All-change_at zero f (t ∷ tasks) keeps h = (keeps t (h.0), h.1)
All-change_at (suc i) f (t ∷ tasks) keeps h = (h.0, All-change_at i f tasks keeps (h.1))

Reach-IsOrdered :
    {Queue : Type 0} {rw_lock : RwLock Queue} {tasks : List Task}
    → Reach rw_lock tasks
    → All IsOrdered tasks
unfolding keeps_order IsOrdered
Reach-IsOrdered idle = tt
Reach-IsOrdered (next before (begins call)) = (acts-IsOrdered call, Reach-IsOrdered before)
Reach-IsOrdered (next before (proceeds queue i e)) =
    All-change_at i (λ t. act_on t.rest t) _
      (λ t. keeps_order-act_on t.rest t.sockets_guard t.states_guard) (Reach-IsOrdered before)
Reach-IsOrdered (next before (aborts i)) =
    All-change_at i (λ t. gone) _ (λ t h. refl) (Reach-IsOrdered before)

-- The task has something left to do.
abbrev pub is_busy : List Act → Bool
is_busy [] = false
is_busy (act ∷ rest) = true

-- It drops a lock next, or takes one of which there is no guard, so that it waits for no more than
-- its turn in the queue of those that want the lock.
abbrev pub is_unobstructed : List Task → List Act → Bool
is_unobstructed tasks [] = false
is_unobstructed tasks (take lock mode ∷ rest) = is_free lock tasks
is_unobstructed tasks (drop lock ∷ rest) = true

any-imp :
    (p q : Task → Bool) (tasks : List Task)
    → ((t : Task) → IsOrdered t → p t ≡ true → q t ≡ true)
    → All IsOrdered tasks
    → any p tasks ≡ true
    → any q tasks ≡ true
any-imp p q [] imp h e = e
any-imp p q (t ∷ tasks) imp h e = elim (Bool-cases (p t)) [
  | inl e' ↦ ground (arith, imp t (h.0) e')
  | inr e' ↦
      let later : any p tasks ≡ true = ground (arith, e, e') in
      ground (arith, any-imp p q tasks imp (h.1) later)
]

module _ (tasks : List Task) where
  states_guard-unobstructed :
      (rest : List Act) (a b : Option Mode)
      → keeps_order rest a b ≡ true
      → is_some b ≡ true
      → is_unobstructed tasks rest ≡ true
  unfolding keeps_order
  states_guard-unobstructed [] none (some m) h e = absurd (false≢true h)
  states_guard-unobstructed [] (some k) b h e = absurd (false≢true h)
  states_guard-unobstructed (take sockets mode ∷ rest) none (some m) h e = absurd (false≢true h)
  states_guard-unobstructed (take sockets mode ∷ rest) (some k) b h e = absurd (false≢true h)
  states_guard-unobstructed (take states mode ∷ rest) a (some m) h e = absurd (false≢true h)
  states_guard-unobstructed (drop lock ∷ rest) a b h e = refl
  states_guard-unobstructed rest a none h e = absurd (false≢true e)

  sockets_guard-unobstructed :
      is_free states tasks ≡ true
      → (rest : List Act) (a b : Option Mode) → keeps_order rest a b ≡ true
      → is_some a ≡ true
      → is_unobstructed tasks rest ≡ true
  unfolding keeps_order
  sockets_guard-unobstructed free [] (some k) b h e = absurd (false≢true h)
  sockets_guard-unobstructed free (take sockets mode ∷ rest) (some k) b h e = absurd (false≢true h)
  sockets_guard-unobstructed free (take states mode ∷ rest) a b h e = free
  sockets_guard-unobstructed free (drop lock ∷ rest) a b h e = refl
  sockets_guard-unobstructed free rest none b h e = absurd (false≢true e)

  busy-unobstructed :
      is_free states tasks ≡ true
      → is_free sockets tasks ≡ true
      → (rest : List Act) → is_busy rest ≡ true
      → is_unobstructed tasks rest ≡ true
  busy-unobstructed free free' [] e = absurd (false≢true e)
  busy-unobstructed free free' (take sockets mode ∷ rest) e = free'
  busy-unobstructed free free' (take states mode ∷ rest) e = free
  busy-unobstructed free free' (drop lock ∷ rest) e = refl

  All-unobstructed :
      All IsOrdered tasks
      → any (λ t. is_busy t.rest) tasks ≡ true
      → any (λ t. is_unobstructed tasks t.rest) tasks ≡ true
  unfolding IsOrdered
  All-unobstructed h busy = elim (Bool-cases (any (λ t. is_some (guard states t)) tasks)) [
    | inl held ↦
        any-imp (λ t. is_some (guard states t)) (λ t. is_unobstructed tasks t.rest) tasks
          (λ t. states_guard-unobstructed t.rest t.sockets_guard t.states_guard) h held
    | inr free ↦ elim (Bool-cases (any (λ t. is_some (guard sockets t)) tasks)) [
      | inl held ↦
          any-imp (λ t. is_some (guard sockets t)) (λ t. is_unobstructed tasks t.rest) tasks
            (λ t. sockets_guard-unobstructed (ap not free) t.rest t.sockets_guard t.states_guard) h
            held
      | inr free' ↦
          any-imp (λ t. is_busy t.rest) (λ t. is_unobstructed tasks t.rest) tasks
            (λ t h. busy-unobstructed (ap not free) (ap not free') t.rest) h busy
    ]
  ]

-- Whatever calls the tasks have begun, in whichever order their acts were done, and whichever tasks
-- ended early: where some task has an act left, some task drops a lock next or takes one that is
-- free.
pub Reach-unobstructed :
    {Queue : Type 0} {rw_lock : RwLock Queue} {tasks : List Task}
    → Reach rw_lock tasks
    → any (λ t. is_busy t.rest) tasks ≡ true
    → any (λ t. is_unobstructed tasks t.rest) tasks ≡ true
Reach-unobstructed {tasks} run busy = All-unobstructed tasks (Reach-IsOrdered run) busy
