-- ===== src/Liberdus/Send/Retry.antt =====
-- When `handle_request` sends again, and when it gives up.
use liberdus_proxy.Prelude.{
  ℕ, zero, suc, ◌+◌, ◌-◌, ◌≤◌, ◌≡◌, refl, ◌∙◌, arith, Text, ok, err, returned,
}
use liberdus_proxy.Config.{Config}
use liberdus_proxy.Liberdus.Float.{Floats}
use liberdus_proxy.Liberdus.State.{Liberdus}
use liberdus_proxy.Liberdus.Send.{
  Surroundings, Client, send, settle, attempts, handle_request, relay, reply_error,
}

module _ {F : Type 0} ⦃o : Floats F⦄ (world : ℕ → Surroundings F)
    (others : ℕ → Liberdus F → Liberdus F) (client : Client) (config : Config)
    (request_buffer : Text) where
  -- From a state, so many attempts fail, one after the other, and the next starts in another state.
  pub data FailsThen (s : Liberdus F) : ℕ → Liberdus F → Type 0 where
    start : FailsThen s 0 s
    next :
        {retry : ℕ} {s' s'' : Liberdus F} (e : Text)
        → FailsThen s retry s'
        → send (world retry) request_buffer s' ≡ returned (err e, s'')
        → FailsThen s (suc retry) (others retry s'')

  attempts-failed :
      (left retry : ℕ) (s' s'' : Liberdus F) (e : Text)
      → send (world retry) request_buffer s' ≡ returned (err e, s'')
      → attempts world others client config request_buffer (suc left) retry s'
        ≡ attempts world others client config request_buffer left (suc retry) (others retry s'')
  unfolding attempts settle
  attempts-failed left retry s' s'' e failed = rw failed refl

  attempts-FailsThen :
      (s : Liberdus F) (retry left : ℕ) (s' : Liberdus F)
      → FailsThen s retry s'
      → retry + left ≡ 2
      → handle_request world others client config request_buffer s
        ≡ attempts world others client config request_buffer left retry s'
  unfolding handle_request
  attempts-FailsThen s _ left _ start h = let two : left ≡ 2 = omega (arith, h) in rw two refl
  attempts-FailsThen s _ left _ (next {retry} {s'} {s''} e before failed) h =
      attempts-FailsThen s retry (suc left) s' before (omega (arith, h))
      ∙ attempts-failed left retry s' s'' e failed

  attempts-relay :
      (left retry : ℕ) (s s' : Liberdus F) (response : Text)
      → send (world retry) request_buffer s ≡ returned (ok response, s')
      → attempts world others client config request_buffer left retry s
        ≡ returned (relay client config response, s')
  unfolding attempts settle
  attempts-relay zero retry s s' response sent = rw sent refl
  attempts-relay (suc left) retry s s' response sent = rw sent refl

  attempts-give_up :
      (retry : ℕ) (s s' : Liberdus F) (e : Text)
      → send (world retry) request_buffer s ≡ returned (err e, s')
      → attempts world others client config request_buffer 0 retry s
        ≡ returned (reply_error client e, s')
  unfolding attempts settle
  attempts-give_up retry s s' e failed = rw failed refl

  -- The response of the first attempt that succeeds is relayed, when at most two have failed before
  -- it; the state is the one that this attempt leaves.
  pub handle_request-relay :
      (s s' s'' : Liberdus F) (retry : ℕ) (response : Text)
      → FailsThen s retry s'
      → retry ≤ 2
      → send (world retry) request_buffer s' ≡ returned (ok response, s'')
      → handle_request world others client config request_buffer s
        ≡ returned (relay client config response, s'')
  handle_request-relay s s' s'' retry response before h sent =
      attempts-FailsThen s retry (2 - retry) s' before (omega (arith, h))
      ∙ attempts-relay (2 - retry) retry s' s'' response sent

  -- After three attempts that fail the client gets the answer to the third's error, and nothing more
  -- is sent.
  pub handle_request-give_up :
      (s s' s'' : Liberdus F) (e : Text)
      → FailsThen s 2 s'
      → send (world 2) request_buffer s' ≡ returned (err e, s'')
      → handle_request world others client config request_buffer s
        ≡ returned (reply_error client e, s'')
  handle_request-give_up s s' s'' e before failed =
      attempts-FailsThen s 2 0 s' before refl ∙ attempts-give_up 2 s' s'' e failed
