-- ===== src/Server/Count.antt =====
-- What the counter of streams counts.
use liberdus_proxy.Prelude.{
  ℕ, zero, suc, ◌+◌, ◌^◌, ◌%◌, ◌≡◌, refl, sym, ◌∙◌, ap, arith, Bool, true, false, ◌&&◌, List, [],
  ◌∷◌, ◌++◌, ok, err, returned, panicked,
}
use liberdus_proxy.Server.{
  Phase, spawned, handshaking, handling, over, died, Connection, Server, Progress, starts, shakes,
  ends, advance, advance_at, Event, accepted, refused, proceeds, react, listen, start,
}

-- The connections that are served: in the handshake or in `handle_stream`.
is_served : Phase → ℕ
is_served spawned = 0
is_served handshaking = 1
is_served handling = 1
is_served over = 0
is_served died = 0

is_dead : Phase → ℕ
is_dead spawned = 0
is_dead handshaking = 0
is_dead handling = 0
is_dead over = 0
is_dead died = 1

unfoldable pub served : List Connection → ℕ
unfolding is_served
served [] = 0
served (c ∷ cs) = is_served c.phase + served cs

unfoldable pub dead : List Connection → ℕ
unfolding is_dead
dead [] = 0
dead (c ∷ cs) = is_dead c.phase + dead cs

counted : Phase → ℕ
counted p = is_served p + is_dead p

counted-advance :
    (p : Progress) (with_tls : Bool) (phase : Phase) (k n : ℕ)
    → n ≡ (counted phase + k) % 2 ^ 64
    → (advance p with_tls phase n).1 ≡ (counted ((advance p with_tls phase n).0) + k) % 2 ^ 64
unfolding counted is_served is_dead advance
counted-advance starts true spawned k n h = omega (arith, h)
counted-advance starts false spawned k n h = omega (arith, h)
counted-advance starts b handshaking k n h = h
counted-advance starts b handling k n h = h
counted-advance starts b over k n h = h
counted-advance starts b died k n h = h
counted-advance (shakes (ok u)) b spawned k n h = h
counted-advance (shakes (ok u)) b handshaking k n h = h
counted-advance (shakes (ok u)) b handling k n h = h
counted-advance (shakes (ok u)) b over k n h = h
counted-advance (shakes (ok u)) b died k n h = h
counted-advance (shakes (err e)) b spawned k n h = h
counted-advance (shakes (err e)) b handshaking k n h = omega (arith, h)
counted-advance (shakes (err e)) b handling k n h = h
counted-advance (shakes (err e)) b over k n h = h
counted-advance (shakes (err e)) b died k n h = h
counted-advance (ends (returned r)) b handling k n h = omega (arith, h)
counted-advance (ends panicked) b handling k n h = h
counted-advance (ends (returned r)) b spawned k n h = h
counted-advance (ends (returned r)) b handshaking k n h = h
counted-advance (ends (returned r)) b over k n h = h
counted-advance (ends (returned r)) b died k n h = h
counted-advance (ends panicked) b spawned k n h = h
counted-advance (ends panicked) b handshaking k n h = h
counted-advance (ends panicked) b over k n h = h
counted-advance (ends panicked) b died k n h = h

-- The counter against all the connections, with `k` for those before them in the list.
Counts : ℕ → List Connection → ℕ → Type 0
Counts k cs n = n ≡ (served cs + dead cs + k) % 2 ^ 64

regroup : (a b c d k : ℕ) → (a + b + (c + d) + k) % 2 ^ 64 ≡ (a + c + (b + d + k)) % 2 ^ 64
regroup a b c d k = ap (λ m. m % 2 ^ 64) (omega arith)

regroup_tail : (a b c d k : ℕ) → (a + b + (c + d) + k) % 2 ^ 64 ≡ (b + d + (a + c + k)) % 2 ^ 64
regroup_tail a b c d k = ap (λ m. m % 2 ^ 64) (omega arith)

Counts-advance_at :
    (i : ℕ) (p : Progress) (cs : List Connection) (k n : ℕ)
    → Counts k cs n
    → Counts k ((advance_at i p cs n).0) ((advance_at i p cs n).1)
unfolding Counts advance_at served dead counted
Counts-advance_at i p [] k n h = h
Counts-advance_at zero p (c ∷ cs) k n h =
    let next = (advance p c.with_tls c.phase n).0 in
    counted-advance p c.with_tls c.phase (served cs + dead cs + k) n
      (h ∙ regroup (is_served c.phase) (served cs) (is_dead c.phase) (dead cs) k)
    ∙ sym (regroup (is_served next) (served cs) (is_dead next) (dead cs) k)
Counts-advance_at (suc i) p (c ∷ cs) k n h =
    let cs' = (advance_at i p cs n).0 in
    Counts-advance_at i p cs (counted c.phase + k) n
      (h ∙ regroup_tail (is_served c.phase) (served cs) (is_dead c.phase) (dead cs) k)
    ∙ sym (regroup_tail (is_served c.phase) (served cs') (is_dead c.phase) (dead cs') k)

served-spawned :
    (b : Bool) (cs : List Connection)
    → served (cs ++ (record { with_tls = b; phase = spawned } ∷ [])) ≡ served cs
unfolding served
served-spawned b [] = refl
served-spawned b (c ∷ cs) = ap (λ m. is_served c.phase + m) (served-spawned b cs)

dead-spawned :
    (b : Bool) (cs : List Connection)
    → dead (cs ++ (record { with_tls = b; phase = spawned } ∷ [])) ≡ dead cs
unfolding dead
dead-spawned b [] = refl
dead-spawned b (c ∷ cs) = ap (λ m. is_dead c.phase + m) (dead-spawned b cs)

IsCounted : Server → Type 0
IsCounted s = Counts 0 s.connections s.stream_count

react-IsCounted :
    (enabled : Bool) (e : Event) (s : Server) → IsCounted s → IsCounted (react enabled e s)
unfolding IsCounted react Counts
react-IsCounted enabled (accepted b) s h =
    rw (served-spawned (b && enabled) s.connections, dead-spawned (b && enabled) s.connections) h
react-IsCounted enabled refused s h = h
react-IsCounted enabled (proceeds i p) s h = Counts-advance_at i p s.connections 0 s.stream_count h

listen-IsCounted :
    (enabled : Bool) (events : List Event) (s : Server)
    → IsCounted s
    → IsCounted (listen enabled events s)
unfolding listen
listen-IsCounted enabled [] s h = h
listen-IsCounted enabled (e ∷ events) s h =
    listen-IsCounted enabled events (react enabled e s) (react-IsCounted enabled e s h)

-- Whatever the connections' tasks do and in whichever order, the counter is the number of the
-- connections in a handshake or in `handle_stream`, with those whose task has panicked there, modulo
-- 2 ^ 64.
pub listen-stream_count :
    (enabled : Bool) (events : List Event)
    → (listen enabled events start).stream_count
      ≡ (served ((listen enabled events start).connections)
          + dead ((listen enabled events start).connections))
        % 2 ^ 64
unfolding IsCounted Counts served dead
listen-stream_count enabled events =
    listen-IsCounted enabled events start (omega arith) ∙ ap (λ m. m % 2 ^ 64) (omega arith)
