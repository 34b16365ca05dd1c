-- ===== src/Websocket/Drain.antt =====
-- The writing loop after a connection's last message.
use liberdus_proxy.Prelude.{
  Bool, if◌then◌else◌, sym, ◌+◌, true, false, List, [], ◌∷◌, ◌++◌, text_eq, length, ◌≡◌, ◌≢◌, refl,
  ◌∙◌, ap, arith,
}
use mathlib.Core.Path.{subst}
use mathlib.Core.List.{append-nil, append_assoc}
use liberdus_proxy.Subscription.Rpc.{RpcResponse}
use liberdus_proxy.Websocket.{
  State, Reader, reading, ended, died, write, write_next, has_sender, is_running,
}
use liberdus_proxy.Websocket.Steps.{IsGone}

-- The loop, as long as it runs: for each round, whether the socket takes the message.
unfoldable pub rounds : List Bool → State → State
rounds [] s = s
rounds (is_sent ∷ sends) s = if s.writing then rounds sends (write is_sent s) else s

-- What goes out: the queue up to the first message that the socket refuses.
abbrev pub sent_of : List RpcResponse → List Bool → List RpcResponse
sent_of (resp ∷ queue) (true ∷ sends) = resp ∷ sent_of queue sends
sent_of queue sends = []

not-is_running : (r : Reader) → r ≢ reading → is_running r ≡ false
not-is_running reading h = absurd (h refl)
not-is_running ended h = refl
not-is_running died h = refl

not-has_sender : (s : State) → IsGone s → has_sender s ≡ false
unfolding has_sender
not-has_sender s g = rw (not-is_running s.reader g.unread, g.absent) refl

IsGone-queue :
    (queue : List RpcResponse) (s : State) → IsGone s → IsGone (record s { queue = queue })
IsGone-queue queue s g = record {
  unread = g.unread;
  absent = g.absent;
  follows_none = g.follows_none;
}

IsGone-written :
    (written : List RpcResponse) (s : State) → IsGone s → IsGone (record s { written = written })
IsGone-written written s g = record {
  unread = g.unread;
  absent = g.absent;
  follows_none = g.follows_none;
}

-- The loop has ended, with the heartbeat, and so much has gone out.
pub record HasEnded (written : List RpcResponse) (s : State) : Type 0 where
  pub not_writing : s.writing ≡ false
  pub not_pinging : s.pinging ≡ false
  pub out : s.written ≡ written

rounds_over : (sends : List Bool) (s : State) → s.writing ≡ false → rounds sends s ≡ s
unfolding rounds
rounds_over [] s e = refl
rounds_over (is_sent ∷ sends) s e = rw e refl

round_on :
    (is_sent : Bool) (sends : List Bool) (s : State)
    → s.writing ≡ true
    → rounds (is_sent ∷ sends) s ≡ rounds sends (write is_sent s)
unfolding rounds
round_on is_sent sends s e = rw e refl

-- The next round ends the loop.
HasEnded-finish :
    (is_sent : Bool) (sends : List Bool) (s t : State)
    → s.writing ≡ true
    → write is_sent s ≡ t
    → t.writing ≡ false
    → t.pinging ≡ false
    → HasEnded (t.written ++ []) (rounds (is_sent ∷ sends) s)
HasEnded-finish is_sent sends s t running e over quiet =
    subst (HasEnded (t.written ++ []))
      (sym (round_on is_sent sends s running ∙ ap (rounds sends) e ∙ rounds_over sends t over))
      (record { not_writing = over; not_pinging = quiet; out = sym (append-nil t.written) })

drain_from :
    (queue : List RpcResponse) (sends : List Bool) (s : State)
    → length sends ≡ length queue + 1
    → s.writing ≡ true
    → IsGone s
    → HasEnded (s.written ++ sent_of queue sends) (rounds sends (record s { queue = queue }))
unfolding write write_next
drain_from queue [] s long running g = absurd (omega (arith, long))
drain_from [] (is_sent ∷ sends) s long running g =
    HasEnded-finish is_sent sends (record s { queue = [] })
      (record s { queue = []; writing = false; pinging = false }) running
      (rw (not-has_sender (record s { queue = [] }) (IsGone-queue [] s g)) refl) refl refl
drain_from (resp ∷ queue) (false ∷ sends) s long running g =
    HasEnded-finish false sends (record s { queue = resp ∷ queue })
      (record s { queue = queue; writing = false; pinging = false }) running refl refl refl
drain_from (resp ∷ queue) (true ∷ sends) s long running g =
    let sent = s.written ++ (resp ∷ []) in
    let next : State = record s { queue = queue; written = sent } in
    subst (HasEnded (s.written ++ (resp ∷ sent_of queue sends)))
      (sym (round_on true sends (record s { queue = resp ∷ queue }) running))
      (subst (λ (w : List RpcResponse). HasEnded w (rounds sends next))
        (append_assoc s.written (resp ∷ []) (sent_of queue sends))
        (drain_from queue sends (record s { written = sent }) (omega (arith, long)) running
          (IsGone-written sent s g)))

-- When a connection is gone, its writing loop ends in as many rounds as there are messages queued and
-- one more, whichever of them the socket takes, and the heartbeat with it: what goes out is the queue,
-- in order, up to the first message that the socket refuses.
pub rounds-IsGone :
    (sends : List Bool) (s : State)
    → IsGone s
    → s.writing ≡ true
    → length sends ≡ length s.queue + 1
    → HasEnded (s.written ++ sent_of s.queue sends) (rounds sends s)
rounds-IsGone sends s g running long = drain_from s.queue sends s long running g
