-- ===== src/Monitor/Routes.antt =====
-- The caches of the monitor's routes: `handle_request` unwraps the entry of the request's route.
use liberdus_proxy.Prelude.{
  ℕ, Bool, true, false, Option, none, some, List, [], ◌∷◌, Text, text_beq, text_beq_iff, text_eq,
  ◌≡◌, refl, arith, inl, inr, All, Bool-cases, Option-cases, Outcome, returned, ok, err,
}
use liberdus_proxy.Prelude.HashMap.{get, insert, contains_key, get-insert}
use liberdus_proxy.Config.{Config}
use liberdus_proxy.Http.Peer.{Client, Reply}
use liberdus_proxy.Http.Route.{is_one_of, monitor_routes, is_monitor_route}
use liberdus_proxy.Monitor.{
  CacheMap, PayloadCache, set, init_caches, ReportText, Surroundings, Fetched, fetch, serve, keep,
  on_fetched, on_payload, look_up, handle_request, is_expired,
}

-- What the tasks make of the caches: each write replaces the payload of one entry.
pub data Reachable : CacheMap → Type 0 where
  start : Reachable init_caches
  write :
      {caches : CacheMap} (route payload : Text) (now : ℕ) (cache : PayloadCache)
      → Reachable caches
      → get route caches ≡ some cache
      → Reachable (insert route (set payload now cache) caches)

HasEvery : CacheMap → Type 0
HasEvery caches = All (λ route. contains_key route caches ≡ true) monitor_routes

All-is_one_of :
    (P : Text → Type 0) (text : Text) (texts : List Text)
    → is_one_of text texts ≡ true
    → All P texts
    → P text
All-is_one_of P text [] h ps = ground (arith, h)
All-is_one_of P text (t ∷ ts) h (p, ps) = elim (Bool-cases (text_beq text t)) [
  | inl e ↦ rw ((text_beq_iff text t).0 e) p
  | inr e ↦ All-is_one_of P text ts (ground (arith, e, h)) ps
]

contains_key-insert :
    (route other : Text) (cache : PayloadCache) (caches : CacheMap)
    → contains_key other caches ≡ true
    → contains_key other (insert route cache caches) ≡ true
contains_key-insert route other cache caches h = elim (Bool-cases (text_beq route other)) [
  | inl e ↦ rw (contains_key, get-insert route other cache caches, e) refl
  | inr e ↦ rw (contains_key, get-insert route other cache caches, e) h
]

All-map : {P Q : Text → Type 0} → ((t : Text) → P t → Q t) → (ts : List Text) → All P ts → All Q ts
All-map f [] ps = tt
All-map f (t ∷ ts) (p, ps) = (f t p, All-map f ts ps)

HasEvery-init : HasEvery init_caches
unfolding HasEvery init_caches insert get
HasEvery-init = (
  refl,
  (
    refl,
    (
      refl,
      (refl, (refl, (refl, (refl, (refl, (refl, (refl, (refl, (refl, (refl, (refl, tt))))))))))),
    ),
  ),
)

HasEvery-Reachable : (caches : CacheMap) → Reachable caches → HasEvery caches
unfolding HasEvery
HasEvery-Reachable _ start = HasEvery-init
HasEvery-Reachable _ (write {caches} route payload now cache before found) =
    All-map (λ t h. contains_key-insert route t (set payload now cache) caches h) monitor_routes
      (HasEvery-Reachable caches before)

pub get-Reachable :
    (route : Text) (caches : CacheMap)
    → is_monitor_route route ≡ true
    → Reachable caches
    → (cache : PayloadCache) × (get route caches ≡ some cache)
unfolding is_monitor_route HasEvery
get-Reachable route caches h reached = elim (Option-cases (get route caches)) [
  | inl e ↦
      let there : contains_key route caches ≡ true =
        All-is_one_of (λ r. contains_key r caches ≡ true) route monitor_routes h
          (HasEvery-Reachable caches reached) in
      ground (arith, e, there)
  | inr found ↦ found
]

module _ (text : ReportText) (client : Client) (config : Config) where
  Returns : Outcome (Reply × CacheMap) → Type 0
  Returns o =
      (reply : Reply) × (caches : CacheMap) × (o ≡ returned (reply, caches)) × Reachable caches

  module _ (w : Surroundings) (route : Text) (h : is_monitor_route route ≡ true)
      (others : (c : CacheMap) → Reachable c → Reachable (w.others c)) (caches : CacheMap)
      (reached : Reachable caches) where
    Returns-on_fetched : (f : Fetched) → Returns (on_fetched text client config w route caches f)
    unfolding on_fetched keep Returns
    Returns-on_fetched (err reply) = (reply, w.others caches, refl, others caches reached)
    Returns-on_fetched (ok response) =
        let (cache, found) = get-Reachable route (w.others caches) h (others caches reached) in
        rw found (
          serve text client config response,
          insert route (set response w.clock.at_set cache) (w.others caches),
          refl,
          write route response w.clock.at_set cache (others caches reached) found,
        )

    Returns-on_payload :
        (lifespan : ℕ) (buffer : Option Text) (expired : Bool)
        → Returns (on_payload text client config w route caches lifespan buffer expired)
    unfolding on_payload Returns
    Returns-on_payload lifespan none expired =
        Returns-on_fetched (fetch text client config w route lifespan)
    Returns-on_payload lifespan (some payload) true =
        Returns-on_fetched (fetch text client config w route lifespan)
    Returns-on_payload lifespan (some payload) false =
        (serve text client config payload, caches, refl, reached)

  -- From the initial caches, whatever the tasks have stored before and store while this request
  -- fetches, the handler of a monitor route returns, and what it leaves is such a state again.
  pub handle_request-returns :
      (w : Surroundings) (route : Text) (caches : CacheMap)
      → is_monitor_route route ≡ true
      → ((c : CacheMap) → Reachable c → Reachable (w.others c))
      → Reachable caches
      → (reply : Reply) × (after : CacheMap) × (handle_request text client config w route caches
          ≡ returned (reply, after))
        × Reachable after
  unfolding handle_request look_up Returns
  handle_request-returns w route caches h others reached =
      let (cache, found) = get-Reachable route caches h reached in
      rw found (
        Returns-on_payload w route h others caches reached cache.lifespan cache.buffer
          (is_expired w.clock.date_now cache))
