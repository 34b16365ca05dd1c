-- ===== src/Liberdus/Send.antt =====
-- `send` and `handle_request` of src/liberdus.rs: one request, forwarded to a node.
pub mod Retry
use liberdus_proxy.Prelude.{
  ℕ, zero, suc, ◌+◌, Bool, true, false, ◌||◌, Option, none, some, List, [], ◌∷◌, ◌++◌, Text, codes,
  is_empty, if◌then◌else◌, Result, ok, err, Outcome, returned, panicked,
}
use liberdus_proxy.Str.Find.{contains}
use liberdus_proxy.Str.Decimal.{decimal}
use liberdus_proxy.Config.{Config}
use liberdus_proxy.Http.Header.{set_http_header}
use liberdus_proxy.Http.Respond.{gateway_timeout, internal_error}
use liberdus_proxy.Http.Peer.{
  Exchange, refused, connect_timeout, write_failed, write_timeout, sent, error_text, Client, Reply,
  respond, relay_error,
}
use liberdus_proxy.Http.Collect.{
  IoError, Read, collect_http, Collected, other, unexpected_eof, invalid_data,
}
use liberdus_proxy.Liberdus.Float.{Floats, Rng}
use liberdus_proxy.Liberdus.State.{Consensor, Liberdus, set_consensor_trip_ms}
use liberdus_proxy.Liberdus.Select.{get_next_appropriate_consensor_with_retry}

-- The response or the error's text.
abbrev pub Sent : Type 0
Sent = Result Text Text

abbrev pub no_consensors : Text
no_consensors = codes "No consensors available after 3 retries"

abbrev pub not_empty : Text → Sent
not_empty response_data =
    if is_empty response_data then err (codes "Empty response from server") else ok response_data

module _ {F : Type 0} where
  -- A failed exchange counts as the longest trip.
  abbrev pub blame : Consensor F → Liberdus F → Liberdus F
  blame target_server s = set_consensor_trip_ms target_server.id s.config.max_http_timeout_ms s

  unfoldable pub finish :
      Consensor F → ℕ → Result IoError (Unit {0}) → Text → Liberdus F → Sent × Liberdus F
  finish target_server elapsed (err e) response_data s = (err (error_text e), blame target_server s)
  finish target_server elapsed (ok u) response_data s =
      (not_empty response_data, set_consensor_trip_ms target_server.id elapsed s)

  unfoldable pub forward : Consensor F → Exchange → Liberdus F → Sent × Liberdus F
  unfolding finish
  forward target_server (refused e) s = (err e, blame target_server s)
  forward target_server connect_timeout s =
      (err (codes "Timeout connecting to target server"), blame target_server s)
  forward target_server (write_failed e) s = (err e, blame target_server s)
  forward target_server write_timeout s =
      (err (codes "Timeout forwarding request to server"), blame target_server s)
  forward target_server (sent reads elapsed) s =
      let collected = collect_http reads in
      finish target_server elapsed collected.result collected.buffer s

-- What one call of `send` meets: the draws and the other tasks' work of each retry, and what each
-- node does with the request.
pub record Surroundings (F : Type 0) : Type 0 where
  pub rngs : ℕ → Rng F
  pub others : ℕ → Liberdus F → Liberdus F
  pub serves : Consensor F → Text → Exchange

module _ {F : Type 0} ⦃o : Floats F⦄ where
  unfoldable pub send_to :
      Surroundings F → Text → Option (ℕ × Consensor F) × Liberdus F → Sent × Liberdus F
  send_to w request_buffer (none, s) = (err no_consensors, s)
  send_to w request_buffer (some (i, target_server), s) =
      forward target_server (w.serves target_server request_buffer) s

  unfoldable pub send : Surroundings F → Text → Liberdus F → Outcome (Sent × Liberdus F)
  unfolding send_to
  send w request_buffer s = elim (get_next_appropriate_consensor_with_retry w.rngs w.others 2 s) [
    | panicked ↦ panicked
    | returned chosen ↦ returned (send_to w request_buffer chosen)
  ]

abbrev pub says_timeout : Text → Bool
says_timeout e =
    contains e (codes "Timeout")
    || contains e (codes "timeout")
    || contains e (codes "Connection refused")

unfoldable pub reply_error : Client → Text → Reply
reply_error client e =
    respond (client 0) [] (if says_timeout e then gateway_timeout else internal_error) (err e)

unfoldable pub set_headers : Config → Text → Text
set_headers config response_data =
    set_http_header
      (set_http_header (set_http_header response_data (codes "Connection") (codes "keep-alive"))
        (codes "Keep-Alive") (codes "timeout=" ++ decimal config.tcp_keepalive_time_sec))
      (codes "Access-Control-Allow-Origin") (codes "*")

unfoldable pub relay : Client → Config → Text → Reply
unfolding relay_error set_headers
relay client config response_data = relay_error client (client 0) (set_headers config response_data)

module _ {F : Type 0} where
  -- What follows an attempt: a response is relayed, an error goes on.
  unfoldable pub settle :
      Client
      → Config
      → Outcome (Sent × Liberdus F)
      → (Text → Liberdus F → Outcome (Reply × Liberdus F))
      → Outcome (Reply × Liberdus F)
  settle client config panicked on_error = panicked
  settle client config (returned (ok response, s)) on_error =
      returned (relay client config response, s)
  settle client config (returned (err e, s)) on_error = on_error e s

module _ {F : Type 0} ⦃o : Floats F⦄ where
  -- The loop: `left` is `2 - retry`. Each attempt has its surroundings, and the state may change
  -- while the loop sleeps.
  unfoldable pub attempts :
      (ℕ → Surroundings F)
      → (ℕ → Liberdus F → Liberdus F)
      → Client
      → Config
      → Text
      → ℕ
      → ℕ
      → Liberdus F
      → Outcome (Reply × Liberdus F)
  attempts world others client config request_buffer zero retry s =
      settle client config (send (world retry) request_buffer s)
        λ e s'. returned (reply_error client e, s')
  attempts world others client config request_buffer (suc left) retry s =
      settle client config (send (world retry) request_buffer s) λ e s'.
        attempts world others client config request_buffer left (suc retry) (others retry s')

  unfoldable pub handle_request :
      (ℕ → Surroundings F)
      → (ℕ → Liberdus F → Liberdus F)
      → Client
      → Config
      → Text
      → Liberdus F
      → Outcome (Reply × Liberdus F)
  unfolding settle attempts
  handle_request world others client config request_buffer s =
      attempts world others client config request_buffer 2 0 s
