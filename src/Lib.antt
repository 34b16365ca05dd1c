-- ===== src/Lib.antt =====
-- A proxy of the Liberdus network: it keeps a list of the network's nodes (consensors), forwards
-- each client's HTTP request to one of them, and tells websocket clients when an account that
-- they follow has changed. The model follows the Rust code of src/, file by file.
--
-- The parts:
-- - Prelude: shared names; Rust's strings as lists of bytes, HashSet and HashMap as lists with
--   laws that no order enters, results, and `Outcome` for code that may panic.
-- - Str: the methods of `str` that the code calls: from_utf8, find, split, lines, trim, parse,
--   `{}`.
-- - Config: the settings of src/config.rs, as records; Config/Samples has some for the tests.
-- - Subscription: `Manager` of src/subscription.rs. `Inner` is its state, with one function for
--   each method; a block under one lock is one function from state to state. Callback is
--   `listen_account_update_callback`, Rpc is src/rpc.rs with `rpc_handler`, and Interleaving lets
--   the tasks' locked blocks run in any order, and Locks is the order in which the calls take the
--   manager's lock and that of the sockets' map. Index holds the updates of one map.
-- - Liberdus: `Liberdus` of src/liberdus.rs. State has the record, the refresh of the node list
--   (`update_active_nodelist`) and the recording of trip times; Prepare has the biases and
--   `prepare_list`; Search is the standard library's binary search; Select is how a request gets
--   its node; Send is `send` and `handle_request`; Account is `get_account_by_address`; Sound is
--   the invariant of the choice of a node, with the tasks' steps (Steps); OldReceipt is
--   `is_old_receipt_route`; Signature is `verify_signature`. Float is the interface of `f64` and
--   of the random generator, with the laws that the theorems need.
-- - Archivers: `discover` of src/archivers.rs, from the answers of the archivers that are asked;
--   Signature is `verify_signature` and what one archiver's response counts as.
-- - Crypto: src/crypto.rs, over the functions of sodiumoxide (`Sodium`); Response is what the two
--   `verify_signature` share.
-- - Http: src/http.rs. Collect reads a message from a stream, Header and Strip rewrite messages,
--   Route reads the route and the client's headers, Respond has the proxy's own responses, Stream
--   is the loop over a connection's requests, over an interface of the applications' handlers,
--   and Peer is what Notifier (src/notifier.rs) and Collector (src/collector.rs) share in
--   forwarding a request. Collector.Fetch has the calls of the collector's API, Collector.Listen
--   its `listen_account_update`.
-- - Json: `serde_json::Value` and its accessors; parsing and printing are parameters.
-- - Monitor: src/shardus_monitor. The caches, the fetch behind them, and the handler.
-- - Observer: src/observer_gateway.rs. Url and Query are the codings and the checks of a query,
--   Rotation the order of the observers, Filter and Forward the transaction requests, Answer the
--   responses; the parent has the endpoints, `handle_notify_bridgeout` and `handle_request`.
-- - Websocket: `handle_stream` of src/ws.rs. `State` is what its three tasks share, `read`,
--   `beat` and `write` are a round of each, and Steps lets them and the other tasks run in any
--   order; Notified is a subscription at the next update; Uuid is `generate_uuid`, and Lingering
--   a connection that ends without a close message.
-- - Proxy: the handlers of src/http.rs's loop on the state that the applications share.
-- - Tls: src/tls.rs, over the functions of rustls_pemfile and rustls.
-- - Startup: `main` of src/main.rs. `boot` is what it does before it waits for nodes; `Tick` is a
--   step of its tasks, of the wait, or of a request.
-- - Streams: src/stream.rs, which is in no module of the crate, over tokio's streams.
-- - Server: the `listen` loops of src/http.rs and src/ws.rs, the tasks of their connections and
--   the counter of streams.
--
-- Time and other parties are arguments: what an archiver, a server or a client does is a value
-- (Fetch, Exchange, Read, Client, Delivery, Observed, Fetched), and the random draws of a call
-- are a record (Rng). The other tasks' work while a loop sleeps is a function on the state.
--
-- Bounds: the binary search runs on fuel that is the list's length, and the proof of its result
-- covers that this is enough. The retry loops are recursions on the attempts left. `usize` sums
-- wrap at 2 ^ 64 where the code adds without a check, `OBSERVER_RR_INDEX` and the counter of
-- streams wrap there too, and the age of a kept response wraps at 2 ^ 128. The heartbeat's
-- interval is 60 seconds. Printed numbers have at most 20 digits, as 64 bits have.
--
-- Not modelled: sockets and the TLS handshake, logging, the text of JSON, and what other tasks do
-- between the stores of one refresh, one preparation or one call for a node; Liberdus/Tests/Torn
-- runs one such case, with each store by itself.
pub mod Prelude
pub mod Str
pub mod Json
pub mod Config
pub mod Crypto
pub mod Subscription
pub mod Liberdus
pub mod Archivers
pub mod Http
pub mod Notifier
pub mod Collector
pub mod Monitor
pub mod Observer
pub mod Websocket
pub mod Proxy
pub mod Server
pub mod Tls
pub mod Startup
pub mod Streams
