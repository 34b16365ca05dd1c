-- ===== src/Server/Tests.antt =====
-- The counter of streams in a short run.
use liberdus_proxy.Prelude.{true, List, [], ◌∷◌, codes, ok, err, panicked, ◌≡◌, refl, ◌^◌, ◌+◌, ◌%◌}
use liberdus_proxy.Server.{
  starts, shakes, ends, Event, accepted, refused, proceeds, advance, advance_at, react, listen,
  start,
}
use liberdus_proxy.Server.Count.{served, dead, listen-stream_count}

-- A handshake that fails, one that succeeds, and a panic after it.
abbrev some_events : List Event
some_events =
    accepted true
    ∷ refused
    ∷ accepted true
    ∷ proceeds 1 starts
    ∷ proceeds 0 starts
    ∷ proceeds 0 (shakes (err (codes "no certificate")))
    ∷ proceeds 1 (shakes (ok tt))
    ∷ proceeds 1 (ends panicked)
    ∷ []

-- The stream of the task that has panicked is still counted.
still_counted : (listen true some_events start).stream_count ≡ 1
unfolding listen react advance_at advance
still_counted = refl

listen-stream_count_example :
    (listen true some_events start).stream_count
    ≡ (served ((listen true some_events start).connections)
        + dead ((listen true some_events start).connections))
      % 2 ^ 64
listen-stream_count_example = listen-stream_count true some_events
