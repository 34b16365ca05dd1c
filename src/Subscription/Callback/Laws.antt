-- ===== src/Subscription/Callback/Laws.antt =====
-- The callback, the invariant, and old news.
use liberdus_proxy.Prelude.{
  ℕ, ◌≤◌, ◌≡◌, refl, true, false, Option, none, List, [], ◌∷◌, arith, text_eq, text_beq,
  text_beq_iff, is_empty, leb, Option-cases, Bool-cases, inl, inr, ◌⊎◌,
}
use liberdus_proxy.Prelude.HashMap
use liberdus_proxy.Prelude.HashMap.{contains_key, get-insert, get-remove}
use liberdus_proxy.Prelude.HashSet
use liberdus_proxy.Subscription.{
  SocketId, UserAccountAddress, Inner, remove_states, remove_each, unsubscribe_all,
}
use liberdus_proxy.Subscription.Invariant.{IsConsistent, unsubscribe_all-IsConsistent}
use liberdus_proxy.Subscription.Callback.{
  Delivery, absent, closed, alive, AccountUpdate, deliver_each, handle_update, stamp, old_timestamp,
  update_timestamp, listen_account_update_callback,
}

module _ (account_id : UserAccountAddress) (timestamp : ℕ) (s : Inner) where
  pub stamp-IsConsistent : IsConsistent s → IsConsistent (stamp account_id timestamp s)
  unfolding stamp
  stamp-IsConsistent h = elim (Option-cases (HashMap.get account_id s.last_received)) [
    | inl e ↦ rw (e, stamp) h
    | inr (t, e) ↦
        rw (e, stamp)
          (record {
            mirrored = h.mirrored;
            full_accounts = h.full_accounts;
            full_socks = h.full_socks;
            tracked = λ a. ground (
              arith,
              h.tracked a,
              get-insert account_id a timestamp s.last_received,
              text_beq_iff account_id a,
            );
          })
  ]

-- A timestamp that is not dropped is left as it was.
abbrev KeptOrDropped : Option ℕ → Option ℕ → Type 0
KeptOrDropped before after = (after ≡ before) ⊎ (after ≡ none)

KeptOrDropped-trans : (a b c : Option ℕ) → KeptOrDropped a b → KeptOrDropped b c → KeptOrDropped a c
KeptOrDropped-trans a b c (inl p) (inl q) = inl (rw q p)
KeptOrDropped-trans a b c (inr p) (inl q) = inr (rw q p)
KeptOrDropped-trans a b c h (inr q) = inr q

module _ (account_id : UserAccountAddress) where
  pub get-remove_states :
      (addr : UserAccountAddress) (socket_id : SocketId) (s : Inner)
      → KeptOrDropped
          (HashMap.get account_id s.last_received)
          (HashMap.get account_id (remove_states addr socket_id s).last_received)
  unfolding remove_states
  get-remove_states addr socket_id s = elim (Option-cases (HashMap.get addr s.socks_by_account)) [
    | inl e ↦ inl (ground arith)
    | inr (set, e) ↦ elim (Bool-cases (is_empty (HashSet.remove socket_id set))) [
      | inl gone ↦ elim (Bool-cases (text_beq addr account_id)) [
        | inl same ↦ inr (ground (arith, get-remove addr account_id s.last_received))
        | inr other ↦ inl (ground (arith, get-remove addr account_id s.last_received))
      ]
      | inr stays ↦ inl (ground arith)
    ]
  ]

  get-remove_each :
      (accounts : List UserAccountAddress) (socket_id : SocketId) (s : Inner)
      → KeptOrDropped
          (HashMap.get account_id s.last_received)
          (HashMap.get account_id (remove_each accounts socket_id s).last_received)
  unfolding remove_each
  get-remove_each [] socket_id s = inl refl
  get-remove_each (a ∷ accounts) socket_id s =
      KeptOrDropped-trans _ _ _ (get-remove_states a socket_id s)
        (get-remove_each accounts socket_id (remove_states a socket_id s))

  pub get-unsubscribe_all :
      (socket_id : SocketId) (s : Inner)
      → KeptOrDropped
          (HashMap.get account_id s.last_received)
          (HashMap.get account_id (unsubscribe_all socket_id s).last_received)
  unfolding unsubscribe_all
  get-unsubscribe_all socket_id s = elim (Option-cases (HashMap.get socket_id s.accounts_by_sock)) [
    | inl e ↦ inl (ground arith)
    | inr (accounts, e) ↦ rw (e, unsubscribe_all) (get-remove_each accounts socket_id s)
  ]

pub Delivery-cases : (d : Delivery) → (d ≡ absent) ⊎ (d ≡ closed) ⊎ (d ≡ alive)
Delivery-cases absent = inl refl
Delivery-cases closed = inr (inl refl)
Delivery-cases alive = inr (inr refl)

module _ (delivery : SocketId → Delivery) (account_id : UserAccountAddress) (timestamp : ℕ) where
  -- The loop keeps what every `unsubscribe_all` keeps.
  deliver_each_induction {ℓ} :
      (P : Inner → Type ℓ)
      → ((socket : SocketId) (s : Inner) → P s → P (unsubscribe_all socket s))
      → (sockets : List SocketId) (s : Inner) → P s
      → P (deliver_each delivery account_id timestamp sockets s).1
  unfolding deliver_each
  deliver_each_induction P step [] s h = h
  deliver_each_induction P step (j ∷ js) s h = elim (Delivery-cases (delivery j)) [
    | inl e ↦ rw (e, deliver_each) (deliver_each_induction P step js _ (step j s h))
    | inr (inl e) ↦ rw (e, deliver_each) (deliver_each_induction P step js _ (step j s h))
    | inr (inr e) ↦ rw (e, deliver_each) (deliver_each_induction P step js s h)
  ]

  handle_update-IsConsistent :
      (s : Inner) → IsConsistent s → IsConsistent (handle_update delivery account_id timestamp s).1
  unfolding handle_update
  handle_update-IsConsistent s h = elim (Bool-cases (contains_key account_id s.socks_by_account)) [
    | inl e ↦ elim (Bool-cases (leb timestamp (old_timestamp account_id s))) [
      | inl old ↦ rw (e, old) h
      | inr fresh ↦
          rw (e, fresh)
            (deliver_each_induction IsConsistent unsubscribe_all-IsConsistent _ _
              (stamp-IsConsistent account_id timestamp s h))
    ]
    | inr e ↦ rw e h
  ]

  -- No message and no change, where no socket follows the account or the timestamp is not new.
  handle_update_silent :
      (s : Inner)
      → (contains_key account_id s.socks_by_account ≡ false)
        ⊎ (timestamp ≤ old_timestamp account_id s)
      → handle_update delivery account_id timestamp s ≡ ([], s)
  unfolding handle_update
  handle_update_silent s h = ground arith

  -- The account's timestamp is at least the update's, or the account has none.
  abbrev UpToDate : Inner → Type 0
  UpToDate s =
      (timestamp ≤ old_timestamp account_id s) ⊎ (HashMap.get account_id s.last_received ≡ none)

  UpToDate-unsubscribe_all :
      (socket : SocketId) (s : Inner) → UpToDate s → UpToDate (unsubscribe_all socket s)
  unfolding old_timestamp
  UpToDate-unsubscribe_all socket s h = elim (get-unsubscribe_all account_id socket s) [
    | inl kept ↦ rw kept h
    | inr dropped ↦ inr dropped
  ]

  UpToDate-stamp : (s : Inner) → UpToDate (stamp account_id timestamp s)
  unfolding old_timestamp update_timestamp stamp
  UpToDate-stamp s = elim (Option-cases (HashMap.get account_id s.last_received)) [
    | inl e ↦ inr (ground arith)
    | inr (t, e) ↦ inl (
        ground (
          arith,
          get-insert account_id account_id timestamp s.last_received,
          text_beq_iff account_id account_id,
        ))
  ]

  UpToDate-handle_update :
      (s : Inner)
      → contains_key account_id s.socks_by_account ≡ true
      → UpToDate (handle_update delivery account_id timestamp s).1
  unfolding handle_update
  UpToDate-handle_update s e = elim (Bool-cases (leb timestamp (old_timestamp account_id s))) [
    | inl old ↦ rw (e, old) (inl (ground arith))
    | inr fresh ↦
        rw (e, fresh)
          (deliver_each_induction UpToDate UpToDate-unsubscribe_all _ _ (UpToDate-stamp s))
  ]

  handle_update_replay :
      (s : Inner)
      → IsConsistent s
      → handle_update delivery account_id timestamp
          (handle_update delivery account_id timestamp s).1
        ≡ ([], (handle_update delivery account_id timestamp s).1)
  handle_update_replay s h = elim (Bool-cases (contains_key account_id s.socks_by_account)) [
    | inl e ↦ elim (UpToDate-handle_update s e) [
      | inl recent ↦ handle_update_silent _ (inr recent)
      | inr dropped ↦
          handle_update_silent _
            (inl (ground (arith, (handle_update-IsConsistent s h).tracked account_id)))
    ]
    | inr e ↦ rw (handle_update_silent s (inl e)) (handle_update_silent s (inl e))
  ]

module _ (delivery : SocketId → Delivery) (update : Option AccountUpdate) (s : Inner) where
  -- The callback keeps the state consistent.
  pub callback-IsConsistent :
      IsConsistent s → IsConsistent (listen_account_update_callback delivery update s).1
  unfolding listen_account_update_callback
  callback-IsConsistent h = elim (Option-cases update) [
    | inl e ↦ rw e h
    | inr (u, e) ↦ rw e (handle_update-IsConsistent delivery u.account_id _ s h)
  ]

  -- Delivered a second time at once, an update sends no message and changes nothing, from any
  -- consistent state.
  pub callback_replay :
      IsConsistent s
      → listen_account_update_callback delivery update
          (listen_account_update_callback delivery update s).1
        ≡ ([], (listen_account_update_callback delivery update s).1)
  unfolding listen_account_update_callback
  callback_replay h = elim (Option-cases update) [
    | inl e ↦ rw e
    | inr (u, e) ↦ rw e (handle_update_replay delivery u.account_id _ s h)
  ]
