-- ===== src/Subscription/Invariant.antt =====
-- The invariant of the manager's state, kept by each write that the code makes under one lock.
use liberdus_proxy.Prelude.{
  ◌≡◌, refl, List, [], ◌∷◌, arith, text_eq, text_beq_iff, Option-cases, inl, inr,
}
use liberdus_proxy.Prelude.HashMap
use liberdus_proxy.Prelude.HashMap.{get-insert, get-remove, contains_key}
use liberdus_proxy.Prelude.HashSet
use liberdus_proxy.Subscription.{
  SocketId, UserAccountAddress, Inner, new, AccountReply, current_timestamp, set_states,
  remove_states, remove_each, unsubscribe_all, is_linked, IsFull,
}
use liberdus_proxy.Subscription.Index.{
  insert_into, remove_from, or_new, is_linked-insert_into, is_linked-remove_from,
  IsFull-insert_into, IsFull-remove_from,
}

-- The two maps hold the same pairs, neither keeps an empty set, and exactly the accounts with a
-- socket have a timestamp.
pub record IsConsistent (s : Inner) : Type 0 where
  pub mirrored :
      (socket_id : SocketId) (addr : UserAccountAddress)
      → is_linked socket_id addr s.accounts_by_sock ≡ is_linked addr socket_id s.socks_by_account
  pub full_accounts : IsFull s.accounts_by_sock
  pub full_socks : IsFull s.socks_by_account
  pub tracked :
      (addr : UserAccountAddress)
      → contains_key addr s.last_received ≡ contains_key addr s.socks_by_account

pub new-IsConsistent : IsConsistent new
unfolding is_linked HashMap.get
new-IsConsistent = record {
  mirrored = λ socket_id addr. refl;
  full_accounts = λ k set e. cc;
  full_socks = λ k set e. cc;
  tracked = λ addr. refl;
}

module _ (addr : UserAccountAddress) (socket_id : SocketId) (s : Inner) where
  tracked-set_states :
      (reply : AccountReply) (a : UserAccountAddress)
      → contains_key a s.last_received ≡ contains_key a s.socks_by_account
      → contains_key a (set_states reply addr socket_id s).last_received
        ≡ contains_key a (set_states reply addr socket_id s).socks_by_account
  unfolding set_states insert_into
  tracked-set_states reply a h = ground (
    arith,
    get-insert addr a (current_timestamp reply) s.last_received,
    get-insert addr a (HashSet.insert socket_id (or_new (HashMap.get addr s.socks_by_account)))
        s.socks_by_account,
    text_beq_iff addr a,
  )

  tracked-remove_states :
      (a : UserAccountAddress)
      → contains_key a s.last_received ≡ contains_key a s.socks_by_account
      → contains_key a (remove_states addr socket_id s).last_received
        ≡ contains_key a (remove_states addr socket_id s).socks_by_account
  unfolding remove_states remove_from
  tracked-remove_states a h = elim (Option-cases (HashMap.get addr s.socks_by_account)) [
    | inl e ↦ ground arith
    | inr (set, e) ↦ ground (
      arith,
      get-remove addr a s.last_received,
      get-remove addr a s.socks_by_account,
      get-insert addr a (HashSet.remove socket_id set) s.socks_by_account,
      text_beq_iff addr a,
    )
  ]

  pub set_states-IsConsistent :
      (reply : AccountReply) → IsConsistent s → IsConsistent (set_states reply addr socket_id s)
  unfolding set_states
  set_states-IsConsistent reply h = record {
    mirrored = λ j a. ground (
      arith,
      is_linked-insert_into socket_id addr s.accounts_by_sock j a,
      is_linked-insert_into addr socket_id s.socks_by_account a j,
      h.mirrored j a,
    );
    full_accounts = IsFull-insert_into socket_id addr s.accounts_by_sock h.full_accounts;
    full_socks = IsFull-insert_into addr socket_id s.socks_by_account h.full_socks;
    tracked = λ a. tracked-set_states reply a (h.tracked a);
  }

  pub remove_states-IsConsistent : IsConsistent s → IsConsistent (remove_states addr socket_id s)
  unfolding remove_states
  remove_states-IsConsistent h = record {
    mirrored = λ j a. ground (
      arith,
      is_linked-remove_from socket_id addr s.accounts_by_sock j a,
      is_linked-remove_from addr socket_id s.socks_by_account a j,
      h.mirrored j a,
    );
    full_accounts = IsFull-remove_from socket_id addr s.accounts_by_sock h.full_accounts;
    full_socks = IsFull-remove_from addr socket_id s.socks_by_account h.full_socks;
    tracked = λ a. tracked-remove_states a (h.tracked a);
  }

pub remove_each-IsConsistent :
    (accounts : List UserAccountAddress) (socket_id : SocketId) (s : Inner)
    → IsConsistent s
    → IsConsistent (remove_each accounts socket_id s)
unfolding remove_each
remove_each-IsConsistent [] socket_id s h = h
remove_each-IsConsistent (a ∷ accounts) socket_id s h =
    remove_each-IsConsistent accounts socket_id (remove_states a socket_id s)
      (remove_states-IsConsistent a socket_id s h)

pub unsubscribe_all-IsConsistent :
    (socket_id : SocketId) (s : Inner) → IsConsistent s → IsConsistent (unsubscribe_all socket_id s)
unfolding unsubscribe_all
unsubscribe_all-IsConsistent socket_id s h =
    elim (Option-cases (HashMap.get socket_id s.accounts_by_sock)) [
      | inl e ↦ rw (e, unsubscribe_all) h
      | inr (accounts, e) ↦
          rw (e, unsubscribe_all) (remove_each-IsConsistent accounts socket_id s h)
    ]
