-- ===== src/Http/Stream.antt =====
-- `handle_stream` of src/http.rs: the requests of one connection, one after the other.
pub mod Ends
use liberdus_proxy.Prelude.{
  ℕ, suc, ◌&&◌, leb, ltb, length, get_elem?, Bool, true, false, Option, none, some, List, [], ◌∷◌,
  ◌++◌, Text, if◌then◌else◌, Result, ok, err, Outcome, returned, panicked,
}
use liberdus_proxy.Str.Utf8.{is_utf8}
use liberdus_proxy.Config.{Config}
use liberdus_proxy.Http.Collect.{IoError}
use liberdus_proxy.Http.Respond.{notfound, respond_with_json}
use liberdus_proxy.Http.Route.{
  Application, validator, collector, notifier, monitor, debug, observer_gateway, get_application,
  get_route,
}

-- What a call of `collect_http` under the keep-alive timeout comes to: a buffer, an error, or no end
-- in time.
pub data Arrival : Type 0 where
  collected : Text → Arrival
  failed : IoError → Arrival
  idle : Arrival

-- A byte of a character after its first.
abbrev pub is_continuation : Option ℕ → Bool
is_continuation none = false
is_continuation (some b) = leb 0x80 b && ltb b 0xc0

-- `str` slices may only end between characters.
unfoldable pub cuts_character : Text → Bool
cuts_character request =
    is_utf8 request && ltb 200 (length request) && is_continuation (get_elem? request 200)

-- The applications' handlers, on a shared state: what is written to the client, and the state after.
-- An error that a handler returns is logged and goes no further.
pub record Handlers (S : Type 0) : Type 0 where
  pub handle_observer : Text → S → Outcome (List Text × S)
  pub handle_monitor : Text → Text → S → Outcome (List Text × S)
  pub handle_collector : Text → S → Outcome (List Text × S)
  pub handle_notifier : Text → S → Outcome (List Text × S)
  pub handle_validator : Text → S → Outcome (List Text × S)
  -- The JSON text of all subscriptions.
  pub subscriptions : S → Text

pub record Served (S : Type 0) : Type 0 where
  pub written : List Text
  pub state : S
  pub result : Result Text (Unit {0})

module _ {S : Type 0} (handlers : Handlers S) (config : Config) (writes : ℕ → Option Text) where
  -- The connection is shut down; an error in that is ignored.
  abbrev pub disconnect : S → Outcome (Served S)
  disconnect s = returned (record { written = []; state = s; result = ok tt })

  abbrev pub before_rest : List Text → Outcome (Served S) → Outcome (Served S)
  before_rest written panicked = panicked
  before_rest written (returned served) =
      returned (record served { written = written ++ served.written })

  abbrev pub go_on : Outcome (List Text × S) → (S → Outcome (Served S)) → Outcome (Served S)
  go_on panicked again = panicked
  go_on (returned (written, s)) again = before_rest written (again s)

  -- The loop's own response: a failed write ends the function with its error.
  abbrev pub write_own : Option Text → List Text → S → (S → Outcome (Served S)) → Outcome (Served S)
  write_own none response s again = before_rest response (again s)
  write_own (some e) response s again =
      returned (record { written = []; state = s; result = err e })

  unfoldable pub debug_response : S → List Text
  debug_response s =
      if config.debug then respond_with_json (handlers.subscriptions s) else notfound ∷ []

  -- `n` counts the loop's rounds.
  unfoldable pub answer :
      ℕ → Application → Text → Text → S → (S → Outcome (Served S)) → Outcome (Served S)
  unfolding debug_response
  answer n observer_gateway route request s again = go_on (handlers.handle_observer request s) again
  answer n monitor route request s again = go_on (handlers.handle_monitor request route s) again
  answer n collector route request s again = go_on (handlers.handle_collector request s) again
  answer n notifier route request s again = go_on (handlers.handle_notifier request s) again
  answer n validator route request s again = go_on (handlers.handle_validator request s) again
  answer n debug route request s again = write_own (writes n) (debug_response s) s again

  -- Without a route the code logs the first 200 bytes as a `str`, and such a slice panics inside a
  -- character.
  unfoldable pub routed :
      ℕ → Option (Text × Text) → Text → S → (S → Outcome (Served S)) → Outcome (Served S)
  routed n none request s again = if cuts_character request then panicked else disconnect s
  routed n (some (method, route)) request s again =
      answer n (get_application method route) route request s again

  unfoldable pub handle_each : List Arrival → ℕ → S → Outcome (Served S)
  handle_each [] n s = disconnect s
  handle_each (collected [] ∷ arrivals) n s = disconnect s
  handle_each (collected (b ∷ bs) ∷ arrivals) n s =
      routed n (get_route (b ∷ bs)) (b ∷ bs) s λ s'. handle_each arrivals (suc n) s'
  handle_each (failed e ∷ arrivals) n s = disconnect s
  handle_each (idle ∷ arrivals) n s = disconnect s

  unfoldable pub handle_stream : List Arrival → S → Outcome (Served S)
  unfolding handle_each
  handle_stream arrivals s = handle_each arrivals 0 s
