-- ===== src/Subscription/Interleaving.antt =====
-- The manager is shared by tasks: a method may be suspended between its locked blocks. A step is one
-- locked block that writes, in any order and with any arguments, so a reachable state is one that
-- some interleaving of the methods and the callback leads to.
use liberdus_proxy.Prelude.{
  ℕ, ◌≤◌, ◌<◌, ◌≡◌, none, some, arith, text_eq, text_beq, text_beq_iff, Bool-cases, inl, inr, ◌⊎◌,
}
use liberdus_proxy.Prelude.HashMap
use liberdus_proxy.Prelude.HashMap.{get-insert}
use liberdus_proxy.Subscription.{
  SocketId, UserAccountAddress, Inner, new, AccountReply, current_timestamp, set_states,
  remove_states,
}
use liberdus_proxy.Subscription.Invariant.{
  IsConsistent, new-IsConsistent, set_states-IsConsistent, remove_states-IsConsistent,
}
use liberdus_proxy.Subscription.Callback.{stamp, old_timestamp, update_timestamp}
use liberdus_proxy.Subscription.Callback.Laws.{stamp-IsConsistent, get-remove_states}

-- The callback compares and writes the timestamp under one lock.
pub data Step (s : Inner) : Inner → Type 0 where
  set :
      (reply : AccountReply) (addr : UserAccountAddress) (socket_id : SocketId)
      → Step s (set_states reply addr socket_id s)
  drop :
      (addr : UserAccountAddress) (socket_id : SocketId) → Step s (remove_states addr socket_id s)
  advance :
      (account_id : UserAccountAddress) (timestamp : ℕ)
      → old_timestamp account_id s < timestamp
      → Step s (stamp account_id timestamp s)

pub data Reach (s : Inner) : Inner → Type 0 where
  here : Reach s s
  next : {t u : Inner} → Reach s t → Step t u → Reach s u

pub Step-IsConsistent : {s t : Inner} → Step s t → IsConsistent s → IsConsistent t
Step-IsConsistent {s} (set reply addr socket_id) h =
    set_states-IsConsistent addr socket_id s reply h
Step-IsConsistent {s} (drop addr socket_id) h = remove_states-IsConsistent addr socket_id s h
Step-IsConsistent {s} (advance account_id timestamp fresh) h =
    stamp-IsConsistent account_id timestamp s h

-- Every state that the tasks reach from the new manager is consistent, whatever their interleaving.
pub Reach-IsConsistent : {s : Inner} → Reach new s → IsConsistent s
Reach-IsConsistent here = new-IsConsistent
Reach-IsConsistent (next r st) = Step-IsConsistent st (Reach-IsConsistent r)

-- While an account is tracked its timestamp never falls: one write keeps it, raises it, or
-- removes it with the account's last socket.
pub old_timestamp-Step :
    {s t : Inner} (a : UserAccountAddress) {old : ℕ}
    → Step s t
    → HashMap.get a s.last_received ≡ some old
    → (HashMap.get a t.last_received ≡ none)
      ⊎ ((new_time : ℕ) × (HashMap.get a t.last_received ≡ some new_time) × (old ≤ new_time))
unfolding set_states stamp old_timestamp update_timestamp
old_timestamp-Step {s} a {old} (set reply addr socket_id) h = inr (
  old,
  ground (arith, get-insert addr a (current_timestamp reply) s.last_received, text_beq_iff addr a),
  omega arith,
)
old_timestamp-Step {s} a {old} (drop addr socket_id) h =
    elim (get-remove_states a addr socket_id s) [
      | inl kept ↦ inr (old, ground arith, omega arith)
      | inr dropped ↦ inl dropped
    ]
old_timestamp-Step {s} a {old} (advance account_id timestamp fresh) h =
    elim (Bool-cases (text_beq account_id a)) [
      | inl same ↦ inr (
        timestamp,
        ground
            (arith, get-insert account_id a timestamp s.last_received, text_beq_iff account_id a),
        ground (arith, text_beq_iff account_id a),
      )
      | inr other ↦
          inr (old, ground (arith, get-insert account_id a timestamp s.last_received), omega arith)
    ]
