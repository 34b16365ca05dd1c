-- ===== src/Websocket/Notified.antt =====
-- A connection that has subscribed, at the next update of the account.
use liberdus_proxy.Prelude.{
  ℕ, true, false, Option, some, List, [], ◌∷◌, ◌++◌, Text, ◌≡◌, refl, sym, ap, ◌∙◌, arith, ok, ltb,
  Bool-cases, inl, inr, returned, text_eq, text_beq_iff,
}
use liberdus_proxy.Prelude.HashSet
use liberdus_proxy.Prelude.HashMap.{contains_key}
use liberdus_proxy.Subscription.{
  SocketId, UserAccountAddress, Inner, AccountReply, subscribe, is_exist, subscribe_fetched,
  is_linked,
}
use liberdus_proxy.Subscription.Invariant.{IsConsistent, set_states-IsConsistent}
use liberdus_proxy.Subscription.Effect.{is_exist-subscribe}
use liberdus_proxy.Subscription.Callback.{Delivery, alive, handle_update, old_timestamp}
use liberdus_proxy.Subscription.Callback.Delivered.{recipients, handle_update_fresh}
use liberdus_proxy.Subscription.Rpc.{
  chat_event, handle, handle_subscriptions, action_from, subscribe_action, subscribed,
  generate_success_response,
}
use liberdus_proxy.Websocket.{State, Environment, text, read}

module _ (env : Environment) (reply : AccountReply) (now : ℕ) (msg action : Text)
    (addr : UserAccountAddress) (id : ℕ) (rest : List (Option Text)) (s : State) where
  read-subscribe :
      env.from_str msg
        ≡ ok (record { id = id; method = chat_event; params = some action ∷ some addr ∷ rest })
      → action_from action ≡ returned subscribe_action
      → s.writing ≡ true
      → read env (returned reply) now (text msg) s ≡ record s {
        queue = s.queue ++ (generate_success_response (some id) (subscribed true addr) ∷ []);
        manager = (subscribe reply s.socket_id addr s.manager).1;
      }
  unfolding read handle handle_subscriptions subscribe_fetched subscribe
  read-subscribe parsed is_subscribe writing =
      elim (Bool-cases (is_exist addr s.socket_id s.manager)) [
        | inl e ↦ rw (parsed, is_subscribe, writing, e) refl
        | inr e ↦ rw (parsed, is_subscribe, writing, e) refl
      ]

subscribe-IsConsistent :
    (reply : AccountReply) (socket_id : SocketId) (addr : UserAccountAddress) (m : Inner)
    → IsConsistent m
    → IsConsistent (subscribe reply socket_id addr m).1
unfolding subscribe
subscribe-IsConsistent reply socket_id addr m h = elim (Bool-cases (is_exist addr socket_id m)) [
  | inl e ↦ rw e h
  | inr e ↦ rw e (set_states-IsConsistent addr socket_id m reply h)
]

is_exist-own_subscribe :
    (reply : AccountReply) (socket_id : SocketId) (addr : UserAccountAddress) (m : Inner)
    → is_exist addr socket_id (subscribe reply socket_id addr m).1 ≡ true
is_exist-own_subscribe reply socket_id addr m =
    (is_exist-subscribe reply socket_id addr m addr socket_id).0
    ∙ rw ((text_beq_iff socket_id socket_id).1 refl, (text_beq_iff addr addr).1 refl) refl

-- An account that a socket follows is tracked.
contains_key-is_exist :
    (socket_id : SocketId) (addr : UserAccountAddress) (m : Inner)
    → IsConsistent m
    → is_exist addr socket_id m ≡ true
    → contains_key addr m.socks_by_account ≡ true
unfolding is_linked
contains_key-is_exist socket_id addr m h e = ground (arith, h.mirrored socket_id addr, e)

handle_update_early :
    (delivery : SocketId → Delivery) (addr : UserAccountAddress) (timestamp : ℕ) (m : Inner)
    → contains_key addr m.socks_by_account ≡ true
    → ltb (old_timestamp addr m) timestamp ≡ false
    → (handle_update delivery addr timestamp m).0 ≡ []
unfolding handle_update
handle_update_early delivery addr timestamp m tracked early = ground (arith, tracked, early)

module _ (delivery : SocketId → Delivery) (addr : UserAccountAddress) (timestamp : ℕ)
    (socket_id : SocketId) (m : Inner) (h : IsConsistent m) (e : is_exist addr socket_id m ≡ true)
    (takes : delivery socket_id ≡ alive) where
  recipients-follower :
      HashSet.contains (recipients (handle_update delivery addr timestamp m).0) socket_id
      ≡ ltb (old_timestamp addr m) timestamp
  unfolding HashSet.contains
  recipients-follower = elim (Bool-cases (ltb (old_timestamp addr m) timestamp)) [
    | inl later ↦
        (handle_update_fresh delivery addr timestamp m h addr socket_id
          (contains_key-is_exist socket_id addr m h e) (ground (arith, later))).0
        ∙ rw (e, takes, later) refl
    | inr early ↦
        let tracked = contains_key-is_exist socket_id addr m h e in
        ap (λ ns. HashSet.contains (recipients ns) socket_id)
          (handle_update_early delivery addr timestamp m tracked early)
        ∙ sym early
  ]

-- With the manager consistent, the writing loop running and a lookup of the account that returns: a
-- message that is read as a request to
-- subscribe to an account is answered once, with that status; and an update of the account that comes
-- next is sent to the socket, if the channel takes it, exactly when its timestamp is above the last
-- one of the account.
pub read-subscribe_notified :
    (env : Environment) (reply : AccountReply) (now : ℕ) (msg action : Text)
    (addr : UserAccountAddress) (id : ℕ) (rest : List (Option Text)) (s : State)
    (delivery : SocketId → Delivery) (timestamp : ℕ)
    → env.from_str msg
      ≡ ok (record { id = id; method = chat_event; params = some action ∷ some addr ∷ rest })
    → action_from action ≡ returned subscribe_action
    → s.writing ≡ true
    → IsConsistent s.manager
    → delivery s.socket_id ≡ alive
    → ((read env (returned reply) now (text msg) s).queue
        ≡ s.queue ++ (generate_success_response (some id) (subscribed true addr) ∷ []))
      × (HashSet.contains
            (recipients
              (handle_update delivery addr timestamp
                (read env (returned reply) now (text msg) s).manager).0)
            s.socket_id
          ≡ ltb (old_timestamp addr (read env (returned reply) now (text msg) s).manager) timestamp)
read-subscribe_notified env reply now msg action addr id rest s delivery timestamp parsed
      is_subscribe writing h takes =
    rw (read-subscribe env reply now msg action addr id rest s parsed is_subscribe writing) (
      refl,
      recipients-follower delivery addr timestamp s.socket_id
          (subscribe reply s.socket_id addr s.manager).1
          (subscribe-IsConsistent reply s.socket_id addr s.manager h)
          (is_exist-own_subscribe reply s.socket_id addr s.manager) takes,
    )
