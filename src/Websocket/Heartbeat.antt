-- ===== src/Websocket/Heartbeat.antt =====
-- The heartbeat of a client that has gone silent.
use mathlib.Core.Path.{subst}
use liberdus_proxy.Prelude.{
  sym, ℕ, ◌+◌, ◌-◌, ◌<◌, ◌≤◌, ltb, Bool, true, false, Bool-cases, ◌⊎◌, inl, inr, List, [], ◌∷◌,
  if◌then◌else◌, ◌≡◌, refl, ◌∙◌, arith,
}
use liberdus_proxy.Subscription.{UserAccountAddress, is_exist, unsubscribe_all}
use liberdus_proxy.Websocket.{State, beat, heartbeat_interval_sec}
use liberdus_proxy.Websocket.Steps.{is_exist-own}

-- The loop's rounds, each with its time and whether its ping could be sent, up to its end.
abbrev pub beats : List (ℕ × Bool) → State → State
beats [] s = s
beats ((now, is_sent) ∷ rounds) s = if s.pinging then beats rounds (beat now is_sent s) else s

is_late-lt :
    (now last_pong : ℕ) → last_pong + 60 < now → ltb heartbeat_interval_sec (now - last_pong) ≡ true
is_late-lt now last_pong h = ground (arith, h)

beat-late :
    (now : ℕ) (is_sent : Bool) (s : State)
    → ltb heartbeat_interval_sec (now - s.last_pong) ≡ true
    → beat now is_sent s
      ≡ record s { manager = unsubscribe_all s.socket_id s.manager; pinging = false }
unfolding beat
beat-late now is_sent s late = simp late refl

beat-early :
    (now : ℕ) (is_sent : Bool) (s : State)
    → ltb heartbeat_interval_sec (now - s.last_pong) ≡ false
    → beat now is_sent s ≡ (if is_sent then s else record s { pinging = false })
unfolding beat
beat-early now is_sent s early = simp early refl

-- The end of the heartbeat, after a round whose ping was or was not sent.
Ends : Bool → State → State → Type 0
Ends is_sent s t =
    (t.pinging ≡ false)
    × ((is_sent ≡ false) ⊎ ((a : UserAccountAddress) → is_exist a s.socket_id t.manager ≡ false))

Ends-late :
    (now : ℕ) (is_sent is_sent' : Bool) (s : State)
    → ltb heartbeat_interval_sec (now - s.last_pong) ≡ true
    → Ends is_sent' s (beat now is_sent s)
unfolding Ends
Ends-late now is_sent is_sent' s late =
    subst (Ends is_sent' s) (sym (beat-late now is_sent s late))
      (refl, inr (is_exist-own s.socket_id s.manager))

beats-ended :
    (now : ℕ) (is_sent : Bool) (rest : List (ℕ × Bool)) (s : State)
    → s.pinging ≡ true
    → (beat now is_sent s).pinging ≡ false
    → beats ((now, is_sent) ∷ rest) s ≡ beat now is_sent s
beats-ended now is_sent [] s running stopped = simp running refl
beats-ended now is_sent ((now', is_sent') ∷ rest) s running stopped = simp (running, stopped) refl

beats-same :
    (now now' : ℕ) (is_sent is_sent' : Bool) (s : State)
    → s.pinging ≡ true
    → beat now is_sent s ≡ s
    → beats ((now, is_sent) ∷ (now', is_sent') ∷ []) s ≡ beat now' is_sent' s
beats-same now now' is_sent is_sent' s running same = simp (running, same, running) refl

-- If no pong comes after the one that is stored, the heartbeat ends with its second round at the
-- latest, given that this is at least 60 seconds after the first and the first later than the pong;
-- the socket then follows no account, or the first round's ping could not be sent.
pub beats-silent :
    (s : State) (now now' : ℕ) (is_sent is_sent' : Bool)
    → s.pinging ≡ true
    → s.last_pong < now
    → now + 60 ≤ now'
    → ((beats ((now, is_sent) ∷ (now', is_sent') ∷ []) s).pinging ≡ false)
      × ((is_sent ≡ false)
          ⊎ ((a : UserAccountAddress)
              → is_exist a s.socket_id (beats ((now, is_sent) ∷ (now', is_sent') ∷ []) s).manager
                ≡ false))
unfolding Ends
beats-silent s now now' is_sent is_sent' running h₁ h₂ =
    elim (Bool-cases (ltb heartbeat_interval_sec (now - s.last_pong))) [
      | inl late ↦
          let ends : Ends is_sent s (beat now is_sent s) = Ends-late now is_sent is_sent s late in
          subst (Ends is_sent s)
            (sym (beats-ended now is_sent ((now', is_sent') ∷ []) s running (ends.0))) ends
      | inr early ↦ elim (Bool-cases is_sent) [
        | inl e ↦
            let same : beat now is_sent s ≡ s = beat-early now is_sent s early ∙ rw e refl in
            subst (Ends is_sent s) (sym (beats-same now now' is_sent is_sent' s running same)) (
              Ends-late now' is_sent' is_sent s
                (is_late-lt now' s.last_pong (omega (arith, h₁, h₂))))
        | inr e ↦
            let stops : beat now is_sent s ≡ record s { pinging = false } =
              beat-early now is_sent s early ∙ rw e refl in
            let ends : Ends is_sent s (beat now is_sent s) =
              subst (Ends is_sent s) (sym stops) (refl, inl e) in
            subst (Ends is_sent s)
              (sym (beats-ended now is_sent ((now', is_sent') ∷ []) s running (ends.0))) ends
      ]
    ]
