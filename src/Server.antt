-- ===== src/Server.antt =====
-- The two `listen` loops of src/http.rs and src/ws.rs, and the counter of streams that they share.
pub mod Count
mod Tests
use liberdus_proxy.Prelude.{
  ℕ, zero, suc, ◌+◌, ◌-◌, ◌^◌, ◌%◌, Bool, true, false, ◌&&◌, List, [], ◌∷◌, ◌++◌, Text,
  if◌then◌else◌, Result, ok, err, Outcome, returned, panicked,
}

-- How far the task of one connection has come: it is spawned, in the TLS handshake, in
-- `handle_stream`, over, or it has panicked there.
pub data Phase : Type 0 where
  spawned handshaking handling over died : Phase

pub record Connection : Type 0 where
  pub with_tls : Bool
  pub phase : Phase

pub record Server : Type 0 where
  pub stream_count : ℕ
  pub connections : List Connection

-- `fetch_add(1)` and `fetch_sub(1)` of an `AtomicUsize`, which wrap.
abbrev fetch_add : ℕ → ℕ
fetch_add n = (n + 1) % 2 ^ 64

abbrev fetch_sub : ℕ → ℕ
fetch_sub n = (n + (2 ^ 64 - 1)) % 2 ^ 64

-- What a task does next: it starts, its handshake succeeds or not, or `handle_stream` ends.
pub data Progress : Type 0 where
  starts : Progress
  shakes : Result Text (Unit {0}) → Progress
  ends : Outcome (Result Text (Unit {0})) → Progress

-- A task's progress changes its phase and the counter. What does not follow its phase is without
-- effect.
unfoldable pub advance : Progress → Bool → Phase → ℕ → Phase × ℕ
advance starts with_tls spawned n = (if with_tls then handshaking else handling, fetch_add n)
advance (shakes (ok u)) with_tls handshaking n = (handling, n)
advance (shakes (err e)) with_tls handshaking n = (over, fetch_sub n)
advance (ends (returned r)) with_tls handling n = (over, fetch_sub n)
advance (ends panicked) with_tls handling n = (died, n)
advance p with_tls phase n = (phase, n)

unfoldable pub advance_at : ℕ → Progress → List Connection → ℕ → List Connection × ℕ
advance_at i p [] n = ([], n)
advance_at zero p (c ∷ cs) n =
    let moved = advance p c.with_tls c.phase n in (record c { phase = moved.0 } ∷ cs, moved.1)
advance_at (suc i) p (c ∷ cs) n = let rest = advance_at i p cs n in (c ∷ rest.0, rest.1)

-- What happens: a connection is accepted, with a TLS acceptor there or not, or cannot be, or the task
-- of a connection goes on.
pub data Event : Type 0 where
  accepted : Bool → Event
  refused : Event
  proceeds : ℕ → Progress → Event

-- `enabled` is `config.tls.enabled`.
unfoldable pub react : Bool → Event → Server → Server
react enabled (accepted has_acceptor) s = record s {
  connections =
      s.connections ++ (record { with_tls = has_acceptor && enabled; phase = spawned } ∷ []);
}
react enabled refused s = s
react enabled (proceeds i p) s =
    let next = advance_at i p s.connections s.stream_count in
    record { stream_count = next.1; connections = next.0 }

unfoldable pub listen : Bool → List Event → Server → Server
listen enabled [] s = s
listen enabled (event ∷ events) s = listen enabled events (react enabled event s)

-- The counter of main.rs, before the first connection.
abbrev pub start : Server
start = record { stream_count = 0; connections = [] }
