-- ===== src/Subscription/Callback.antt =====
-- `listen_account_update_callback` of src/subscription.rs: how an account update becomes
-- notifications to the sockets that follow the account.
pub mod Laws
pub mod Delivered
use liberdus_proxy.Prelude.{
  ℕ, Bool, true, false, Option, none, some, List, [], ◌∷◌, Text, text_eq, is_empty, leb,
  if◌then◌else◌,
}
use liberdus_proxy.Prelude.HashMap
use liberdus_proxy.Prelude.HashMap.{contains_key}
use liberdus_proxy.Subscription.{SocketId, UserAccountAddress, Inner, unsubscribe_all}

-- A payload that parses; `chat_timestamp` is `data["chatTimestamp"].as_u64()`.
pub record AccountUpdate : Type 0 where
  pub account_id : UserAccountAddress
  pub chat_timestamp : Option ℕ

-- What the socket map and the channel answer for a socket: no sender, a sender whose receiver is
-- gone, or one that takes the message.
pub data Delivery : Type 0 where
  absent closed alive : Delivery

pub record Notification : Type 0 where
  pub socket : SocketId
  pub account_id : UserAccountAddress
  pub timestamp : ℕ

unfoldable pub update_timestamp : Option ℕ → ℕ
update_timestamp none = 0
update_timestamp (some t) = t

-- `last_received.get(&account_id)`, or 0
unfoldable pub old_timestamp : UserAccountAddress → Inner → ℕ
old_timestamp account_id s = update_timestamp (HashMap.get account_id s.last_received)

-- The write through `get_mut`, under the guard's lock.
unfoldable pub stamp : UserAccountAddress → ℕ → Inner → Inner
stamp account_id timestamp s = elim (HashMap.get account_id s.last_received) [
  | none ↦ s
  | some t ↦ record s { last_received = HashMap.insert account_id timestamp s.last_received }
]

unfoldable pub sockets_of : UserAccountAddress → Inner → List SocketId
sockets_of account_id s = elim (HashMap.get account_id s.socks_by_account) [
  | none ↦ []
  | some sockets ↦ sockets
]

module _ (delivery : SocketId → Delivery) (account_id : UserAccountAddress) (timestamp : ℕ) where
  -- The loop over the cloned set: a dead socket is unsubscribed from everything.
  unfoldable pub deliver_each : List SocketId → Inner → List Notification × Inner
  deliver_each [] s = ([], s)
  deliver_each (socket ∷ sockets) s = elim (delivery socket) [
    | absent ↦ deliver_each sockets (unsubscribe_all socket s)
    | closed ↦ deliver_each sockets (unsubscribe_all socket s)
    | alive ↦
        let (sent, s') = deliver_each sockets s in
        (record { socket = socket; account_id = account_id; timestamp = timestamp } ∷ sent, s')
  ]

  -- From the first read of the state on.
  unfoldable pub handle_update : Inner → List Notification × Inner
  unfolding old_timestamp update_timestamp stamp sockets_of
  handle_update s =
      if contains_key account_id s.socks_by_account
      then (if leb timestamp (old_timestamp account_id s)
          then ([], s)
          else deliver_each (sockets_of account_id (stamp account_id timestamp s))
              (stamp account_id timestamp s))
      else ([], s)

-- `none` is a payload that does not parse.
unfoldable pub listen_account_update_callback :
    (SocketId → Delivery) → Option AccountUpdate → Inner → List Notification × Inner
listen_account_update_callback delivery none s = ([], s)
listen_account_update_callback delivery (some u) s =
    handle_update delivery u.account_id (update_timestamp u.chat_timestamp) s
