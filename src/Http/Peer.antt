-- ===== src/Http/Peer.antt =====
-- Both sides of a forwarded request: what the server does with it, and what the client is told. The
-- handlers of src/notifier.rs and src/collector.rs are one code but for the server and its name.
pub mod Answer
pub mod Binary
use liberdus_proxy.Prelude.{
  ℕ, Option, none, some, List, [], ◌∷◌, ◌++◌, Text, codes, is_empty, if◌then◌else◌, Result, ok, err,
}
use liberdus_proxy.Str.Decimal.{decimal}
use liberdus_proxy.Config.{Config}
use liberdus_proxy.Http.Header.{set_http_header, split_head_body, join_head_body}
use liberdus_proxy.Http.Strip.{strip_route_root}
use liberdus_proxy.Http.Respond.{gateway_timeout, internal_error}
use liberdus_proxy.Http.Collect.{IoError, Read, collect_http, other, unexpected_eof, invalid_data}

-- What a server does with a connection and a request: what `connect` and `write_all` come to, each
-- under its timeout, and after them what can be read and how long it took. The text of an error is
-- what `to_string` gives.
pub data Exchange : Type 0 where
  refused : Text → Exchange
  connect_timeout : Exchange
  write_failed : Text → Exchange
  write_timeout : Exchange
  sent : List Read → ℕ → Exchange

abbrev pub error_text : IoError → Text
error_text (unexpected_eof e) = e
error_text (invalid_data e) = e
error_text (other e) = e

-- The client's side of the stream: the error of a `write_all`, by its place among the writes.
abbrev pub Client : Type 0
Client = ℕ → Option Text

-- What is written to the client, and what the handler returns.
pub record Reply : Type 0 where
  pub written : List Text
  pub result : Result Text (Unit {0})

-- A write whose error is passed on, and otherwise the handler's own result.
unfoldable pub respond : Option Text → List Text → Text → Result Text (Unit {0}) → Reply
respond none before response result = record {
  written = before ++ (response ∷ []);
  result = result;
}
respond (some e) before response result = record { written = before; result = err e }

unfoldable pub relay_error : Client → Option Text → Text → Reply
relay_error client none response = record { written = response ∷ []; result = ok tt }
relay_error client (some e) response = respond (client 1) [] internal_error (err e)

-- The first segment of the route is taken off.
unfoldable pub strip_request : Text → Text
strip_request request_buffer =
    let parts = split_head_body request_buffer in
    join_head_body (strip_route_root (parts.0)) (parts.1)

unfoldable pub set_keep_alive : Config → Text → Text
set_keep_alive config response_data =
    set_http_header (set_http_header response_data (codes "Connection") (codes "keep-alive"))
      (codes "Keep-Alive") (codes "timeout=" ++ decimal config.tcp_keepalive_time_sec)

unfoldable pub reply_with : Client → Text → Text → Reply
reply_with client response e = respond (client 0) [] response (err e)

unfoldable pub relay_collected : Client → Config → Text → Result IoError (Unit {0}) → Text → Reply
relay_collected client config name (err e) response_data =
    reply_with client internal_error (error_text e)
relay_collected client config name (ok u) [] =
    reply_with client internal_error (codes "Empty response from " ++ name)
relay_collected client config name (ok u) (b ∷ bs) =
    relay_error client (client 0) (set_keep_alive config (b ∷ bs))

unfoldable pub relay_exchange : Client → Config → Text → Exchange → Reply
unfolding relay_collected
relay_exchange client config name (refused e) = reply_with client gateway_timeout e
relay_exchange client config name connect_timeout =
    reply_with client gateway_timeout (codes "Timeout connecting to " ++ name)
relay_exchange client config name (write_failed e) = reply_with client internal_error e
relay_exchange client config name write_timeout =
    reply_with client gateway_timeout (codes "Timeout forwarding request to " ++ name)
relay_exchange client config name (sent reads elapsed) =
    let collected = collect_http reads in
    relay_collected client config name collected.result collected.buffer
