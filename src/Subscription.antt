-- ===== src/Subscription.antt =====
-- The subscription manager (src/subscription.rs): its state and the methods that change it. Each
-- method works on the state under one lock, so it is a function from state to state.
mod Index
pub mod Invariant
pub mod Effect
pub mod Callback
pub mod Interleaving
pub mod Rpc
pub mod Refinement
pub mod Locks
mod Tests
unfoldable pub use Index.{is_linked}
pub use Index.{IsFull}
use Index.{insert_into, remove_from}
use liberdus_proxy.Prelude.{
  ℕ, Bool, true, false, Option, none, some, List, [], ◌∷◌, Text, text_eq, is_empty, if◌then◌else◌,
  Outcome, returned, panicked,
}
use liberdus_proxy.Prelude.HashMap
use liberdus_proxy.Prelude.HashMap.{HashMap}
use liberdus_proxy.Prelude.HashSet

abbrev pub SocketId : Type 0
SocketId = Text

abbrev pub UserAccountAddress : Type 0
UserAccountAddress = Text

pub record Inner : Type 0 where
  pub accounts_by_sock : HashMap SocketId (List UserAccountAddress)
  pub socks_by_account : HashMap UserAccountAddress (List SocketId)
  pub last_received : HashMap UserAccountAddress ℕ

-- The states of `Manager::new`.
abbrev pub new : Inner
new = record { accounts_by_sock = []; socks_by_account = []; last_received = [] }

-- What `get_account_by_address` gave where it returned; what it comes to with its panics is an
-- `Outcome AccountReply`: an error, a value that is no `UserAccount`, or the account's
-- `chat_timestamp`.
pub data AccountReply : Type 0 where
  failed : AccountReply
  malformed : AccountReply
  account : ℕ → AccountReply

unfoldable pub current_timestamp : AccountReply → ℕ
current_timestamp failed = 0
current_timestamp malformed = 0
current_timestamp (account chat_timestamp) = chat_timestamp

-- The write of `set_states`, after the account's reply has arrived.
unfoldable pub set_states : AccountReply → UserAccountAddress → SocketId → Inner → Inner
set_states reply addr socket_id s = record {
  accounts_by_sock = insert_into socket_id addr s.accounts_by_sock;
  socks_by_account = insert_into addr socket_id s.socks_by_account;
  last_received = elim (HashMap.get addr s.last_received) [
    | none ↦ HashMap.insert addr (current_timestamp reply) s.last_received
    | some t ↦ s.last_received
  ];
}

-- The timestamp goes when the account's last socket does.
drop_timestamp : UserAccountAddress → SocketId → Option (List SocketId) → Inner → HashMap Text ℕ
drop_timestamp addr socket_id none s = s.last_received
drop_timestamp addr socket_id (some sockets) s =
    if is_empty (HashSet.remove socket_id sockets)
    then HashMap.remove addr s.last_received
    else s.last_received

unfoldable pub remove_states : UserAccountAddress → SocketId → Inner → Inner
unfolding drop_timestamp
remove_states addr socket_id s = record {
  accounts_by_sock = remove_from socket_id addr s.accounts_by_sock;
  socks_by_account = remove_from addr socket_id s.socks_by_account;
  last_received = drop_timestamp addr socket_id (HashMap.get addr s.socks_by_account) s;
}

abbrev pub is_exist : UserAccountAddress → SocketId → Inner → Bool
is_exist addr sock_id s = is_linked sock_id addr s.accounts_by_sock

pub remove_each : List UserAccountAddress → SocketId → Inner → Inner
remove_each [] socket_id s = s
remove_each (a ∷ accounts) socket_id s =
    remove_each accounts socket_id (remove_states a socket_id s)

unfoldable pub unsubscribe_all : SocketId → Inner → Inner
unfolding remove_each
unsubscribe_all socket_id s = elim (HashMap.get socket_id s.accounts_by_sock) [
  | none ↦ s
  | some accounts ↦ remove_each accounts socket_id s
]

unfoldable pub subscribe : AccountReply → SocketId → UserAccountAddress → Inner → Bool × Inner
subscribe reply socket_id address s =
    if is_exist address socket_id s
    then (false, s)
    else (true, set_states reply address socket_id s)

-- With a lookup that may panic: it is made before the write, and only for a new pair.
unfoldable pub subscribe_fetched :
    Outcome AccountReply → SocketId → UserAccountAddress → Inner → Outcome (Bool × Inner)
subscribe_fetched fetched socket_id address s =
    if is_exist address socket_id s then returned (false, s) else elim fetched [
      | panicked ↦ panicked
      | returned reply ↦ returned (subscribe reply socket_id address s)
    ]

unfoldable pub unsubscribe : SocketId → UserAccountAddress → Inner → Bool × Inner
unsubscribe socket_id address s =
    if is_linked socket_id address s.accounts_by_sock
    then (true, remove_states address socket_id s)
    else (false, s)

unfoldable pub get_all_subscriptions : Inner → List UserAccountAddress
get_all_subscriptions s = HashMap.keys s.socks_by_account
