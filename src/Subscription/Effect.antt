-- ===== src/Subscription/Effect.antt =====
-- What each method does to the subscriptions: which socket follows which account afterwards.
use liberdus_proxy.Prelude.{
  ◌≡◌, true, false, ◌&&◌, List, [], ◌∷◌, arith, Text, text_eq, text_beq, text_beq_iff, is_empty,
  if◌then◌else◌, Option-cases, inl, inr, ◌↔◌,
}
use liberdus_proxy.Prelude.HashMap
use liberdus_proxy.Prelude.HashMap.{contains-keys}
use liberdus_proxy.Prelude.HashSet
use liberdus_proxy.Subscription.{
  SocketId, UserAccountAddress, Inner, AccountReply, set_states, remove_states, remove_each,
  unsubscribe_all, subscribe, unsubscribe, get_all_subscriptions, is_linked, is_exist,
}
use liberdus_proxy.Subscription.Index.{is_linked-insert_into, is_linked-remove_from}
use liberdus_proxy.Subscription.Invariant.{IsConsistent}

-- The write of `set_states` adds one pair, and that of `remove_states` takes one away.
pub is_exist-set_states :
    (reply : AccountReply) (address : UserAccountAddress) (socket_id : SocketId) (s : Inner)
    (a : UserAccountAddress) (j : SocketId)
    → is_exist a j (set_states reply address socket_id s)
      ≡ (if text_beq socket_id j && text_beq address a then true else is_exist a j s)
unfolding set_states
is_exist-set_states reply address socket_id s a j =
    ground (arith, is_linked-insert_into socket_id address s.accounts_by_sock j a)

pub is_exist-remove_states :
    (address : UserAccountAddress) (socket_id : SocketId) (s : Inner) (a : UserAccountAddress)
    (j : SocketId)
    → is_exist a j (remove_states address socket_id s)
      ≡ (if text_beq socket_id j && text_beq address a then false else is_exist a j s)
unfolding remove_states
is_exist-remove_states address socket_id s a j =
    ground (arith, is_linked-remove_from socket_id address s.accounts_by_sock j a)

module _ (reply : AccountReply) (socket_id : SocketId) (address : UserAccountAddress)
    (s : Inner) where
  -- `subscribe` adds the pair of the socket and the account, changes no other pair, and returns
  -- whether the pair is new.
  pub is_exist-subscribe :
      (a : UserAccountAddress) (j : SocketId)
      → (is_exist a j (subscribe reply socket_id address s).1
          ≡ (if text_beq socket_id j && text_beq address a then true else is_exist a j s))
        × ((subscribe reply socket_id address s).0
            ≡ (if is_exist address socket_id s then false else true))
  unfolding subscribe set_states
  is_exist-subscribe a j = (
    ground (
      arith,
      is_linked-insert_into socket_id address s.accounts_by_sock j a,
      text_beq_iff socket_id j,
      text_beq_iff address a,
    ),
    ground arith,
  )

module _ (socket_id : SocketId) (address : UserAccountAddress) (s : Inner) where
  -- `unsubscribe` takes the pair away, changes no other pair, and returns whether it was there.
  pub is_exist-unsubscribe :
      (a : UserAccountAddress) (j : SocketId)
      → (is_exist a j (unsubscribe socket_id address s).1
          ≡ (if text_beq socket_id j && text_beq address a then false else is_exist a j s))
        × ((unsubscribe socket_id address s).0 ≡ is_exist address socket_id s)
  unfolding unsubscribe remove_states
  is_exist-unsubscribe a j = (
    ground (
      arith,
      is_linked-remove_from socket_id address s.accounts_by_sock j a,
      text_beq_iff socket_id j,
      text_beq_iff address a,
    ),
    ground arith,
  )

is_exist-remove_each :
    (accounts : List UserAccountAddress) (socket_id : SocketId) (s : Inner) (a : UserAccountAddress)
    (j : SocketId)
    → is_exist a j (remove_each accounts socket_id s)
      ≡ (if text_beq socket_id j && HashSet.contains accounts a then false else is_exist a j s)
unfolding remove_each remove_states HashSet.contains
is_exist-remove_each [] socket_id s a j = ground arith
is_exist-remove_each (x ∷ accounts) socket_id s a j = ground (
  arith,
  is_exist-remove_each accounts socket_id (remove_states x socket_id s) a j,
  is_linked-remove_from socket_id x s.accounts_by_sock j a,
)

module _ (socket_id : SocketId) (s : Inner) where
  -- After `unsubscribe_all` the socket follows no account, and every other socket follows what it
  -- followed.
  pub is_exist-unsubscribe_all :
      (a : UserAccountAddress) (j : SocketId)
      → is_exist a j (unsubscribe_all socket_id s)
        ≡ (if text_beq socket_id j then false else is_exist a j s)
  unfolding unsubscribe_all is_linked
  is_exist-unsubscribe_all a j = elim (Option-cases (HashMap.get socket_id s.accounts_by_sock)) [
    | inl e ↦ ground (arith, text_beq_iff socket_id j)
    | inr (accounts, e) ↦
        ground (arith, is_exist-remove_each accounts socket_id s a j, text_beq_iff socket_id j)
  ]

first_element :
    (set : List Text) → is_empty set ≡ false → (x : Text) × (HashSet.contains set x ≡ true)
unfolding HashSet.contains
first_element [] h = absurd (ground arith)
first_element (x ∷ set) h = (x, ground (arith, text_beq_iff x x))

module _ (s : Inner) (h : IsConsistent s) (addr : UserAccountAddress) where
  follower :
      HashSet.contains (get_all_subscriptions s) addr ≡ true
      → (j : SocketId) × (is_exist addr j s ≡ true)
  unfolding get_all_subscriptions is_linked
  follower listed = elim (Option-cases (HashMap.get addr s.socks_by_account)) [
    | inl e ↦ absurd (ground (arith, contains-keys addr s.socks_by_account))
    | inr (set, e) ↦
        let (j, found) = first_element set (h.full_socks addr set e) in
        (j, ground (arith, h.mirrored j addr))
  ]

  -- In a consistent state `get_all_subscriptions` lists an account exactly when some socket
  -- follows it.
  pub mem-get_all_subscriptions :
      (HashSet.contains (get_all_subscriptions s) addr ≡ true)
      ↔ ((j : SocketId) × (is_exist addr j s ≡ true))
  unfolding get_all_subscriptions is_linked
  mem-get_all_subscriptions = (
    follower,
    λ w. ground (arith, contains-keys addr s.socks_by_account, h.mirrored w.0 addr, w.1),
  )
