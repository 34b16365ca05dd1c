-- ===== src/Monitor/Fresh.antt =====
-- What the monitor's caches are for: a page that was fetched is served again without the server.
use liberdus_proxy.Prelude.{
  ℕ, ◌+◌, ◌^◌, ◌<◌, Bool, true, false, ◌⊎◌, inr, Option, none, some, Text, text_eq, ◌≡◌, refl,
  arith, ◌∙◌, ok, err, returned, [], ◌∷◌, ◌++◌, codes,
}
use liberdus_proxy.Prelude.HashMap.{get}
use liberdus_proxy.Config.{Config}
use liberdus_proxy.Str.Decimal.{decimal}
use liberdus_proxy.Http.Header.{set_http_header}
use liberdus_proxy.Http.Respond.{internal_error}
use liberdus_proxy.Http.Peer.{Client, Reply}
use liberdus_proxy.Monitor.{
  CacheMap, PayloadCache, ReportText, Surroundings, fetch, on_fetched, on_payload, look_up,
  handle_request, is_expired, cold_fetch, emulated_request, refresh_report,
}

is_expired-late :
    (now : ℕ) (cache : PayloadCache)
    → cache.timestamp + cache.lifespan < now
    → now < 2 ^ 128
    → is_expired now cache ≡ true
unfolding is_expired
is_expired-late now cache h₁ h₂ = ground (arith, h₁, h₂)

module _ (text : ReportText) (client : Client) (config : Config) where
  on_payload-cold :
      (w : Surroundings) (route : Text) (caches : CacheMap) (lifespan : ℕ) (buffer : Option Text)
      (expired : Bool)
      → (buffer ≡ none) ⊎ (expired ≡ true)
      → on_payload text client config w route caches lifespan buffer expired
        ≡ on_fetched text client config w route caches (fetch text client config w route lifespan)
  unfolding on_payload
  on_payload-cold w route caches lifespan none expired cold = refl
  on_payload-cold w route caches lifespan (some payload) true cold = refl
  on_payload-cold w route caches lifespan (some payload) false cold = ground (arith, cold)

  handle_request-cold :
      (w : Surroundings) (route : Text) (caches : CacheMap) (cache : PayloadCache)
      → get route caches ≡ some cache
      → (cache.buffer ≡ none) ⊎ (is_expired w.clock.date_now cache ≡ true)
      → handle_request text client config w route caches
        ≡ on_fetched text client config w route caches
            (fetch text client config w route cache.lifespan)
  unfolding handle_request look_up
  handle_request-cold w route caches cache found cold = rw found (
      on_payload-cold w route caches cache.lifespan cache.buffer (is_expired w.clock.date_now cache)
        cold)

  -- A payload that is older than its lifespan is not sent: when the server gives no response, the
  -- client gets the error's answer, and the caches are as the other tasks leave them.
  pub handle_request-late :
      (w : Surroundings) (route : Text) (caches : CacheMap) (cache : PayloadCache) (reply : Reply)
      → get route caches ≡ some cache
      → cache.timestamp + cache.lifespan < w.clock.date_now
      → w.clock.date_now < 2 ^ 128
      → cold_fetch client (w.upstream (emulated_request config route)) ≡ err reply
      → handle_request text client config w route caches ≡ returned (reply, w.others caches)
  unfolding on_fetched fetch refresh_report
  handle_request-late w route caches cache reply found h₁ h₂ failed =
      handle_request-cold w route caches cache found
        (inr (is_expired-late w.clock.date_now cache h₁ h₂))
      ∙ rw failed refl

-- What a client gets that takes the answer: the response with three headers set, or the internal
-- error in place of an empty one.
abbrev pub expected_page : Config → Text → Reply
expected_page config [] = record {
  written = internal_error ∷ [];
  result = err (codes "Empty response from server");
}
expected_page config (b ∷ bs) = record {
  written =
      set_http_header
        (set_http_header (set_http_header (b ∷ bs) (codes "Connection") (codes "keep-alive"))
          (codes "Keep-Alive") (codes "timeout=" ++ decimal config.tcp_keepalive_time_sec))
        (codes "Access-Control-Allow-Origin") (codes "*")
      ∷ [];
  result = ok tt;
}
