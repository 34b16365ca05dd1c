-- ===== src/Websocket/Steps.antt =====
-- The connection's tasks and those of the others, in any order.
use liberdus_proxy.Prelude.{
  Outcome, ℕ, Bool, true, false, Bool-cases, inl, inr, none, List, [], ◌∷◌, ◌++◌, text_eq, text_beq,
  text_beq_iff, ◌≡◌, ◌≢◌, refl, ◌∙◌, ap, arith, ltb, ◌-◌,
}
use liberdus_proxy.Prelude.HashMap
use liberdus_proxy.Prelude.HashMap.{get-insert, get-remove, contains_key}
use liberdus_proxy.Subscription.{
  SocketId, UserAccountAddress, Inner, AccountReply, set_states, remove_states, unsubscribe_all,
  is_exist, is_linked,
}
use liberdus_proxy.Subscription.Rpc.{RpcResponse}
use liberdus_proxy.Subscription.Callback.{stamp}
use liberdus_proxy.Subscription.Effect.{
  is_exist-set_states, is_exist-remove_states, is_exist-unsubscribe_all,
}
use liberdus_proxy.Websocket.{
  State, reading, ended, Environment, Incoming, close, read, beat, write, write_next, has_sender,
  heartbeat_interval_sec,
}

-- The writes of the other connections and of the account updates to the manager.
pub data OtherStep (m : Inner) : Inner → Type 0 where
  set :
      (reply : AccountReply) (addr : UserAccountAddress) (j : SocketId)
      → OtherStep m (set_states reply addr j m)
  drop : (addr : UserAccountAddress) (j : SocketId) → OtherStep m (remove_states addr j m)
  advance : (addr : UserAccountAddress) (now : ℕ) → OtherStep m (stamp addr now m)

pub data Step (s : State) : State → Type 0 where
  reads :
      (env : Environment) (reply : Outcome AccountReply) (now : ℕ) (msg : Incoming)
      → s.reader ≡ reading
      → Step s (read env reply now msg s)
  beats : (now : ℕ) (is_sent : Bool) → s.pinging ≡ true → Step s (beat now is_sent s)
  writes : (is_sent : Bool) → s.writing ≡ true → Step s (write is_sent s)
  -- The callback sends to the sockets of the map.
  delivers :
      (resp : RpcResponse)
      → contains_key s.socket_id s.sock_map ≡ true
      → Step s (record s { queue = s.queue ++ (resp ∷ []) })
  inserts :
      (j : SocketId) (sender : ℕ)
      → Step s (record s { sock_map = HashMap.insert j sender s.sock_map })
  removes : (j : SocketId) → Step s (record s { sock_map = HashMap.remove j s.sock_map })
  manages : (m : Inner) → OtherStep s.manager m → Step s (record s { manager = m })

pub data Run (s : State) : State → Type 0 where
  here : Run s s
  next : {t u : State} → Run s t → Step t u → Run s u

-- The write is no subscription of this id.
abbrev pub IsApartFrom : SocketId → {m n : Inner} → OtherStep m n → Type 0
IsApartFrom socket_id (set reply addr j) = text_beq j socket_id ≡ false
IsApartFrom socket_id (drop addr j) = Unit
IsApartFrom socket_id (advance addr now) = Unit

-- No other connection acts under the socket's id: `generate_uuid` gives the same id to two of them
-- at one reading of the clock.
abbrev pub IsApart : {s t : State} → Step s t → Type 0
IsApart {s} (inserts j sender) = text_beq j s.socket_id ≡ false
IsApart {s} (manages m step) = IsApartFrom s.socket_id step
IsApart _ = Unit

abbrev pub IsApartRun : {s t : State} → Run s t → Type 0
IsApartRun here = Unit
IsApartRun (next before step) = IsApartRun before × IsApart step

-- The connection reads nothing more, nobody can send to it, and it follows no account.
pub record IsGone (s : State) : Type 0 where
  pub unread : s.reader ≢ reading
  pub absent : HashMap.get s.socket_id s.sock_map ≡ none
  pub follows_none : (a : UserAccountAddress) → is_exist a s.socket_id s.manager ≡ false

ended≢reading : ended ≢ reading
ended≢reading h = ground (arith, h)

pub is_exist-own :
    (socket_id : SocketId) (m : Inner) (a : UserAccountAddress)
    → is_exist a socket_id (unsubscribe_all socket_id m) ≡ false
is_exist-own socket_id m a =
    is_exist-unsubscribe_all socket_id m a socket_id
    ∙ rw ((text_beq_iff socket_id socket_id).1 refl) refl

pub read-IsGone :
    (env : Environment) (reply : Outcome AccountReply) (now : ℕ) (s : State)
    → IsGone (read env reply now close s)
unfolding read
read-IsGone env reply now s = record {
  unread = ended≢reading;
  absent =
      get-remove s.socket_id s.socket_id s.sock_map
      ∙ rw ((text_beq_iff s.socket_id s.socket_id).1 refl) refl;
  follows_none = is_exist-own s.socket_id s.manager;
}

accounts_by_sock-stamp :
    (addr : UserAccountAddress) (now : ℕ) (m : Inner)
    → (stamp addr now m).accounts_by_sock ≡ m.accounts_by_sock
unfolding stamp
accounts_by_sock-stamp addr now m = ground arith

OtherStep-follows_none :
    (socket_id : SocketId) (m n : Inner)
    → (step : OtherStep m n) → IsApartFrom socket_id step
    → ((a : UserAccountAddress) → is_exist a socket_id m ≡ false)
    → (a : UserAccountAddress) → is_exist a socket_id n ≡ false
OtherStep-follows_none socket_id m _ (set reply addr j) h none_followed a =
    is_exist-set_states reply addr j m a socket_id ∙ rw h (none_followed a)
OtherStep-follows_none socket_id m _ (drop addr j) h none_followed a =
    ground (arith, is_exist-remove_states addr j m a socket_id, none_followed a)
OtherStep-follows_none socket_id m _ (advance addr now) h none_followed a =
    ap (λ accounts. is_linked socket_id a accounts) (accounts_by_sock-stamp addr now m)
    ∙ none_followed a

beat-IsGone : (now : ℕ) (is_sent : Bool) (s : State) → IsGone s → IsGone (beat now is_sent s)
unfolding beat
beat-IsGone now is_sent s g = elim (Bool-cases (ltb heartbeat_interval_sec (now - s.last_pong))) [
  | inl e ↦ rw e (record {
    unread = g.unread;
    absent = g.absent;
    follows_none = is_exist-own s.socket_id s.manager;
  })
  | inr e ↦ elim (Bool-cases is_sent) [
    | inl e' ↦ rw (e, e') g
    | inr e' ↦
        rw (e, e') (record { unread = g.unread; absent = g.absent; follows_none = g.follows_none })
  ]
]

write_next-IsGone :
    (is_sent : Bool) (queue : List RpcResponse) (s : State)
    → IsGone s
    → IsGone (write_next is_sent queue s)
unfolding write_next
write_next-IsGone is_sent [] s g = elim (Bool-cases (has_sender s)) [
  | inl e ↦ rw e g
  | inr e ↦ rw e (record { unread = g.unread; absent = g.absent; follows_none = g.follows_none })
]
write_next-IsGone true (resp ∷ queue) s g = record {
  unread = g.unread;
  absent = g.absent;
  follows_none = g.follows_none;
}
write_next-IsGone false (resp ∷ queue) s g = record {
  unread = g.unread;
  absent = g.absent;
  follows_none = g.follows_none;
}

write-IsGone : (is_sent : Bool) (s : State) → IsGone s → IsGone (write is_sent s)
unfolding write
write-IsGone is_sent s g = write_next-IsGone is_sent s.queue s g

Step-IsGone : {s t : State} → (step : Step s t) → IsApart step → IsGone s → IsGone t
Step-IsGone (reads env reply now msg running) apart g = absurd (g.unread running)
Step-IsGone {s} (beats now is_sent running) apart g = beat-IsGone now is_sent s g
Step-IsGone {s} (writes is_sent running) apart g = write-IsGone is_sent s g
Step-IsGone (delivers resp there) apart g = record {
  unread = g.unread;
  absent = g.absent;
  follows_none = g.follows_none;
}
Step-IsGone {s} (inserts j sender) h g = record {
  unread = g.unread;
  absent = get-insert j s.socket_id sender s.sock_map ∙ rw h g.absent;
  follows_none = g.follows_none;
}
Step-IsGone {s} (removes j) apart g = record {
  unread = g.unread;
  absent = ground (arith, get-remove j s.socket_id s.sock_map, g.absent);
  follows_none = g.follows_none;
}
Step-IsGone {s} (manages m step) apart g = record {
  unread = g.unread;
  absent = g.absent;
  follows_none = OtherStep-follows_none s.socket_id s.manager m step apart g.follows_none;
}

-- Once the client's close has been read, and as long as no other connection has the socket's id, in
-- every state that the tasks reach from there the socket is not in the map, it follows no account,
-- and nothing more is read from it.
pub Run-close :
    (env : Environment) (reply : Outcome AccountReply) (now : ℕ) (s t : State)
    (run : Run (read env reply now close s) t)
    → IsApartRun run
    → IsGone t
Run-close env reply now s _ here apart = read-IsGone env reply now s
Run-close env reply now s _ (next r st) (before, apart) =
    Step-IsGone st apart (Run-close env reply now s _ r before)
