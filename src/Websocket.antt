-- ===== src/Websocket.antt =====
-- `handle_stream` of src/ws.rs: one websocket connection, as the three tasks that share its state.
pub mod Uuid
pub mod Steps
pub mod Drain
pub mod Heartbeat
pub mod Lingering
pub mod Notified
mod Tests
use liberdus_proxy.Prelude.{
  ℕ, ◌+◌, ◌-◌, ltb, Bool, true, false, ◌&&◌, not, Option, none, some, List, [], ◌∷◌, ◌++◌, Text,
  codes, text_eq, ◌==◌, if◌then◌else◌, Result, ok, err, Outcome, returned, panicked,
}
use liberdus_proxy.Prelude.HashMap
use liberdus_proxy.Prelude.HashMap.{HashMap}
use liberdus_proxy.Str.Find.{contains}
use liberdus_proxy.Subscription.{SocketId, Inner, AccountReply, unsubscribe_all}
use liberdus_proxy.Subscription.Rpc.{
  RpcRequest, RpcResponse, handle, generate_error_response, invalid_request, internal_error,
}
use liberdus_proxy.Websocket.Uuid.{generate_uuid}

-- The reading task: it runs, its loop has ended, or it has panicked.
pub data Reader : Type 0 where
  reading ended died : Reader

-- The connection's own state, and the two that it shares with the others: the sockets with their
-- senders, by the number of the connection that receives from a sender, and the manager.
pub record State : Type 0 where
  pub socket_id : SocketId
  pub sender : ℕ
  pub reader : Reader
  pub pinging : Bool
  pub writing : Bool
  pub last_pong : ℕ
  -- The channel, and what has gone out of it to the client.
  pub queue : List RpcResponse
  pub written : List RpcResponse
  pub sock_map : HashMap SocketId ℕ
  pub manager : Inner

-- After a handshake: `nanos` for the id, `now` in seconds.
unfoldable pub connect : ℕ → ℕ → ℕ → HashMap SocketId ℕ → Inner → State
connect nanos now sender sock_map manager = record {
  socket_id = generate_uuid nanos;
  sender = sender;
  reader = reading;
  pinging = true;
  writing = true;
  last_pong = now;
  queue = [];
  written = [];
  sock_map = HashMap.insert (generate_uuid nanos) sender sock_map;
  manager = manager;
}

abbrev pub not_accepted : Text
not_accepted = codes "Error accepting websocket"

-- The handshake comes first: without it the map and the manager stay as they are.
unfoldable pub accept :
    Result Text (Unit {0}) → ℕ → ℕ → ℕ → HashMap SocketId ℕ → Inner → Result Text State
accept (ok u) nanos now sender sock_map manager = ok (connect nanos now sender sock_map manager)
accept (err e) nanos now sender sock_map manager = err not_accepted

-- What `read.next()` yields: a message, an error with its text, or the end.
pub data Incoming : Type 0 where
  close : Incoming
  text : Text → Incoming
  pong : Incoming
  other : Incoming
  broken : Text → Incoming
  stream_end : Incoming

-- `tx.send(resp).unwrap()`: the channel takes it as long as the writing loop has not ended.
unfoldable pub send_or_die : RpcResponse → State → State
send_or_die resp s =
    if s.writing then record s { queue = s.queue ++ (resp ∷ []) } else record s { reader = died }

-- `e` is the text of the channel's error.
after_rpc : ℕ → Text → Outcome (Result RpcResponse RpcResponse × Inner) → State → State
after_rpc rpc_id e panicked s = record s { reader = died }
after_rpc rpc_id e (returned (ok resp, manager)) s = record s {
  queue = s.queue ++ (resp ∷ []);
  manager = manager;
}
after_rpc rpc_id e (returned (err resp, manager)) s =
    send_or_die
      (generate_error_response (some rpc_id) (codes "Error handling request: " ++ e) internal_error)
      (record s { manager = manager })

on_text : Text → Outcome AccountReply → Result Text RpcRequest → State → State
on_text closed reply (err e) s =
    send_or_die (generate_error_response none (codes "Invalid JSON: " ++ e) invalid_request) s
on_text closed reply (ok request) s =
    after_rpc request.id closed (handle s.writing reply request s.socket_id s.manager) s

-- The parser of requests, and the text of an error of the channel.
pub record Environment : Type 0 where
  pub from_str : Text → Result Text RpcRequest
  pub closed : Text

-- One round of the reading loop: what the account's reply is, if it is asked for, and the time.
unfoldable pub read : Environment → Outcome AccountReply → ℕ → Incoming → State → State
unfolding after_rpc on_text
read env reply now close s = record s {
  sock_map = HashMap.remove s.socket_id s.sock_map;
  manager = unsubscribe_all s.socket_id s.manager;
  reader = ended;
}
read env reply now (text msg) s = on_text env.closed reply (env.from_str msg) s
read env reply now pong s = record s { last_pong = now }
read env reply now other s = s
read env reply now (broken e) s =
    if contains e (codes "Connection reset by peer") then record s { reader = ended } else s
read env reply now stream_end s = record s { reader = ended }

abbrev pub heartbeat_interval_sec : ℕ
heartbeat_interval_sec = 60

-- One round of the heartbeat after its sleep: the time, and whether the ping could be sent. A close
-- of the write half is ignored.
unfoldable pub beat : ℕ → Bool → State → State
beat now is_sent s =
    if ltb heartbeat_interval_sec (now - s.last_pong)
    then record s { manager = unsubscribe_all s.socket_id s.manager; pinging = false }
    else if is_sent
    then s
    else record s { pinging = false }

-- The loop is over: the heartbeat is aborted.
abbrev finish : State → State
finish s = record s { writing = false; pinging = false }

abbrev pub is_running : Reader → Bool
is_running reading = true
is_running _ = false

abbrev pub is_own : Option ℕ → ℕ → Bool
is_own none n = false
is_own (some m) n = m == n

-- The reading task has one sender, and the sockets' map the other.
unfoldable pub has_sender : State → Bool
has_sender s =
    if is_running s.reader then true else is_own (HashMap.get s.socket_id s.sock_map) s.sender

unfoldable pub write_next : Bool → List RpcResponse → State → State
write_next is_sent [] s = if has_sender s then s else finish s
write_next is_sent (resp ∷ queue) s =
    if is_sent
    then record s { queue = queue; written = s.written ++ (resp ∷ []) }
    else finish (record s { queue = queue })

-- One round of the writing loop: whether the socket takes the message. Without one the loop waits as
-- long as there is a sender.
unfoldable pub write : Bool → State → State
unfolding write_next
write is_sent s = write_next is_sent s.queue s
