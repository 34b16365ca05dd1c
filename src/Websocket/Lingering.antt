-- ===== src/Websocket/Lingering.antt =====
-- A connection that ends without a close message.
use mathlib.Core.Path.{subst}
use liberdus_proxy.Prelude.{
  Outcome, if-P, codes, ℕ, ◌-◌, ltb, Bool, true, false, Bool-cases, inl, inr, some, [], text_eq,
  text_beq, ◌≡◌, ◌≢◌, refl, sym, ap, ◌∙◌, arith, ==_iff, ◌==◌,
}
use liberdus_proxy.Prelude.HashMap
use liberdus_proxy.Prelude.HashMap.{get-insert, get-remove}
use liberdus_proxy.Str.Find.{contains}
use liberdus_proxy.Subscription.{AccountReply}
use liberdus_proxy.Websocket.{
  State, reading, ended, Environment, Incoming, close, text, pong, other, broken, stream_end, read,
  beat, write, write_next, has_sender, is_running, heartbeat_interval_sec,
}
use liberdus_proxy.Websocket.Steps.{Step, reads, beats, writes, delivers, inserts, removes, manages}

-- No message comes for the socket, and no other connection puts its id into the map or takes it out.
abbrev pub IsQuiet : {s t : State} → Step s t → Type 0
IsQuiet (reads env reply now msg running) = Unit
IsQuiet (beats now is_sent running) = Unit
IsQuiet (writes is_sent running) = Unit
IsQuiet (delivers resp there) = ⊥
IsQuiet {s} (inserts j sender) = text_beq j s.socket_id ≡ false
IsQuiet {s} (removes j) = text_beq j s.socket_id ≡ false
IsQuiet (manages m step) = Unit

pub data QuietRun (s : State) : State → Type 0 where
  here : QuietRun s s
  next : {t u : State} → QuietRun s t → (step : Step t u) → IsQuiet step → QuietRun s u

-- The socket is still in the map with its sender, and the writing loop waits for a message.
pub record Lingers (s : State) : Type 0 where
  pub unread : s.reader ≢ reading
  pub in_map : HashMap.get s.socket_id s.sock_map ≡ some s.sender
  pub waits : s.writing ≡ true
  pub empty : s.queue ≡ []

false≢true : false ≢ true
false≢true h = ground (arith, h)

ended≢reading : ended ≢ reading
ended≢reading h = ground (arith, h)

own_refl : (n : ℕ) → (n == n) ≡ true
own_refl n = (==_iff n n).1 refl

has_sender-Lingers : (s : State) → Lingers s → has_sender s ≡ true
unfolding has_sender
has_sender-Lingers s l = elim (Bool-cases (is_running s.reader)) [
  | inl e ↦ rw e refl
  | inr e ↦ rw (e, l.in_map) (own_refl s.sender)
]

beat-Lingers : (now : ℕ) (is_sent : Bool) (s : State) → Lingers s → Lingers (beat now is_sent s)
unfolding beat
beat-Lingers now is_sent s l =
    if-P Lingers (ltb heartbeat_interval_sec (now - s.last_pong)) _ _
      (λ e. record { unread = l.unread; in_map = l.in_map; waits = l.waits; empty = l.empty })
      λ e.
        if-P Lingers is_sent s _ (λ e'. l)
          λ e'. record { unread = l.unread; in_map = l.in_map; waits = l.waits; empty = l.empty }

waits_on : (is_sent : Bool) (s : State) → Lingers s → write is_sent s ≡ s
unfolding write write_next
waits_on is_sent s l =
    ap (λ queue. write_next is_sent queue s) l.empty
    ∙ if-P (λ (t : State). t ≡ s) (has_sender s) s _ (λ e. refl)
        (λ e. absurd (false≢true (sym e ∙ has_sender-Lingers s l)))

write-Lingers : (is_sent : Bool) (s : State) → Lingers s → Lingers (write is_sent s)
unfolding write write_next
write-Lingers is_sent s l = subst Lingers (sym (waits_on is_sent s l)) l

Step-Lingers : {s t : State} (step : Step s t) → IsQuiet step → Lingers s → Lingers t
Step-Lingers (reads env reply now msg running) quiet l = absurd (l.unread running)
Step-Lingers {s} (beats now is_sent running) quiet l = beat-Lingers now is_sent s l
Step-Lingers {s} (writes is_sent running) quiet l = write-Lingers is_sent s l
Step-Lingers (delivers resp there) quiet l = absurd quiet
Step-Lingers {s} (inserts j sender) quiet l = record {
  unread = l.unread;
  in_map = get-insert j s.socket_id sender s.sock_map ∙ rw quiet l.in_map;
  waits = l.waits;
  empty = l.empty;
}
Step-Lingers {s} (removes j) quiet l = record {
  unread = l.unread;
  in_map = get-remove j s.socket_id s.sock_map ∙ rw quiet l.in_map;
  waits = l.waits;
  empty = l.empty;
}
Step-Lingers (manages m step) quiet l = record {
  unread = l.unread;
  in_map = l.in_map;
  waits = l.waits;
  empty = l.empty;
}

-- The client is gone without a close message.
abbrev pub IsLost : Incoming → Type 0
IsLost close = ⊥
IsLost (text msg) = ⊥
IsLost pong = ⊥
IsLost other = ⊥
IsLost (broken e) = contains e (codes "Connection reset by peer") ≡ true
IsLost stream_end = Unit

read-IsLost :
    (env : Environment) (reply : Outcome AccountReply) (now : ℕ) (msg : Incoming) (s : State)
    → IsLost msg
    → read env reply now msg s ≡ record s { reader = ended }
unfolding read
read-IsLost env reply now close s h = absurd h
read-IsLost env reply now (text msg) s h = absurd h
read-IsLost env reply now pong s h = absurd h
read-IsLost env reply now other s h = absurd h
read-IsLost env reply now (broken e) s h = rw h refl
read-IsLost env reply now stream_end s h = refl

QuietRun-ended :
    (s t : State)
    → HashMap.get s.socket_id s.sock_map ≡ some s.sender
    → s.writing ≡ true
    → s.queue ≡ []
    → QuietRun (record s { reader = ended }) t
    → Lingers t
QuietRun-ended s _ in_map waits empty here = record {
  unread = ended≢reading;
  in_map = in_map;
  waits = waits;
  empty = empty;
}
QuietRun-ended s _ in_map waits empty (next {t} before step quiet) =
    Step-Lingers step quiet (QuietRun-ended s t in_map waits empty before)

-- When the stream of a socket of the map ends, or is reset, while nothing is queued, the socket stays
-- in the map and the writing loop waits, in every state that the tasks reach without a message for
-- the socket and without an insert or a removal of its id by another connection: neither the heartbeat
-- nor a change of the manager ends it.
pub QuietRun-Lingers :
    (env : Environment) (reply : Outcome AccountReply) (now : ℕ) (msg : Incoming) (s t : State)
    → IsLost msg
    → HashMap.get s.socket_id s.sock_map ≡ some s.sender
    → s.writing ≡ true
    → s.queue ≡ []
    → QuietRun (read env reply now msg s) t
    → Lingers t
QuietRun-Lingers env reply now msg s t lost in_map waits empty run =
    QuietRun-ended s t in_map waits empty
      (subst (λ (u : State). QuietRun u t) (read-IsLost env reply now msg s lost) run)
