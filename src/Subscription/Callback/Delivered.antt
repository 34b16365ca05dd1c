-- ===== src/Subscription/Callback/Delivered.antt =====
-- Who hears of an update, and who is dropped by it.
use liberdus_proxy.Prelude.{
  ℕ, ◌<◌, ◌≡◌, refl, Bool, true, false, not, ◌&&◌, ◌∙◌, ap, All, List, [], ◌∷◌, arith, text_eq,
  text_beq_iff, if◌then◌else◌, inl, inr,
}
use liberdus_proxy.Prelude.HashMap.{contains_key}
use liberdus_proxy.Prelude.HashSet
use liberdus_proxy.Subscription.{
  SocketId, UserAccountAddress, Inner, unsubscribe_all, is_exist, is_linked,
}
use liberdus_proxy.Subscription.Effect.{is_exist-unsubscribe_all}
use liberdus_proxy.Subscription.Invariant.{IsConsistent}
use liberdus_proxy.Subscription.Callback.{
  Delivery, absent, closed, alive, Notification, deliver_each, handle_update, stamp, old_timestamp,
  sockets_of,
}
use liberdus_proxy.Subscription.Callback.Laws.{Delivery-cases}

-- The socket's channel takes the message.
abbrev pub is_alive : Delivery → Bool
is_alive absent = false
is_alive closed = false
is_alive alive = true

-- The sockets of the messages that were sent.
abbrev pub recipients : List Notification → List SocketId
recipients [] = []
recipients (n ∷ ns) = n.socket ∷ recipients ns

module _ (delivery : SocketId → Delivery) (account_id : UserAccountAddress) (timestamp : ℕ) where
  recipients-deliver_each :
      (sockets : List SocketId) (s : Inner) (j : SocketId)
      → HashSet.contains (recipients (deliver_each delivery account_id timestamp sockets s).0) j
        ≡ (HashSet.contains sockets j && is_alive (delivery j))
  unfolding deliver_each HashSet.contains
  recipients-deliver_each [] s j = refl
  recipients-deliver_each (k ∷ ks) s j = elim (Delivery-cases (delivery k)) [
    | inl e ↦ ground (arith, recipients-deliver_each ks (unsubscribe_all k s) j, text_beq_iff k j)
    | inr (inl e) ↦
        ground (arith, recipients-deliver_each ks (unsubscribe_all k s) j, text_beq_iff k j)
    | inr (inr e) ↦ ground (arith, recipients-deliver_each ks s j, text_beq_iff k j)
  ]

  is_exist-deliver_each :
      (sockets : List SocketId) (s : Inner) (a : UserAccountAddress) (j : SocketId)
      → is_exist a j (deliver_each delivery account_id timestamp sockets s).1 ≡ (
          if HashSet.contains sockets j && not (is_alive (delivery j))
          then false
          else is_exist a j s)
  unfolding deliver_each HashSet.contains
  is_exist-deliver_each [] s a j = refl
  is_exist-deliver_each (k ∷ ks) s a j = elim (Delivery-cases (delivery k)) [
    | inl e ↦ ground (
      arith,
      is_exist-deliver_each ks (unsubscribe_all k s) a j,
      is_exist-unsubscribe_all k s a j,
      text_beq_iff k j,
    )
    | inr (inl e) ↦ ground (
      arith,
      is_exist-deliver_each ks (unsubscribe_all k s) a j,
      is_exist-unsubscribe_all k s a j,
      text_beq_iff k j,
    )
    | inr (inr e) ↦ ground (arith, is_exist-deliver_each ks s a j, text_beq_iff k j)
  ]

  -- Each message is about the account and bears the timestamp.
  abbrev pub Carries : Notification → Type 0
  Carries n = (n.account_id ≡ account_id) × (n.timestamp ≡ timestamp)

  All-deliver_each :
      (sockets : List SocketId) (s : Inner)
      → All Carries (deliver_each delivery account_id timestamp sockets s).0
  unfolding deliver_each
  All-deliver_each [] s = tt
  All-deliver_each (k ∷ ks) s = elim (Delivery-cases (delivery k)) [
    | inl e ↦ rw (e, deliver_each) (All-deliver_each ks (unsubscribe_all k s))
    | inr (inl e) ↦ rw (e, deliver_each) (All-deliver_each ks (unsubscribe_all k s))
    | inr (inr e) ↦ rw (e, deliver_each) ((refl, refl), All-deliver_each ks s)
  ]

  module _ (s : Inner) (h : IsConsistent s) where
    contains-sockets_of :
        (j : SocketId)
        → HashSet.contains (sockets_of account_id (stamp account_id timestamp s)) j
          ≡ is_exist account_id j s
    unfolding sockets_of stamp is_linked HashSet.contains
    contains-sockets_of j = ground (arith, h.mirrored j account_id)

    is_exist-stamp :
        (a : UserAccountAddress) (j : SocketId)
        → is_exist a j (stamp account_id timestamp s) ≡ is_exist a j s
    unfolding stamp
    is_exist-stamp a j = ground arith

    -- A timestamp that is new for an account with sockets is heard by exactly the account's sockets
    -- whose channel takes the message, and by no other.
    handle_update_lem :
        contains_key account_id s.socks_by_account ≡ true
        → old_timestamp account_id s < timestamp
        → handle_update delivery account_id timestamp s
          ≡ deliver_each delivery account_id timestamp
              (sockets_of account_id (stamp account_id timestamp s))
              (stamp account_id timestamp s)
    unfolding handle_update
    handle_update_lem e fresh = ground arith

    -- In a consistent state, for an account with sockets and a timestamp above its last one: a
    -- socket is notified exactly when it follows the account and its channel takes the message, each
    -- message bears the account and the timestamp, and exactly the account's sockets whose channel
    -- does not take it lose all their subscriptions.
    pub handle_update_fresh :
        (a : UserAccountAddress) (j : SocketId)
        → contains_key account_id s.socks_by_account ≡ true
        → old_timestamp account_id s < timestamp
        → (HashSet.contains (recipients (handle_update delivery account_id timestamp s).0) j
            ≡ (is_exist account_id j s && is_alive (delivery j)))
          × All Carries (handle_update delivery account_id timestamp s).0
          × (is_exist a j (handle_update delivery account_id timestamp s).1 ≡ (
              if is_exist account_id j s && not (is_alive (delivery j))
              then false
              else is_exist a j s))
    handle_update_fresh a j e fresh =
        let sockets = sockets_of account_id (stamp account_id timestamp s) in
        rw (handle_update_lem e fresh) (
          recipients-deliver_each sockets _ j
              ∙ ap (λ b. b && is_alive (delivery j)) (contains-sockets_of j),
          All-deliver_each sockets _,
          ground (
            arith,
            is_exist-deliver_each sockets (stamp account_id timestamp s) a j,
            contains-sockets_of j,
            is_exist-stamp a j,
          ),
        )
