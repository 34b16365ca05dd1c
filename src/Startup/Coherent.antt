-- ===== src/Startup/Coherent.antt =====
-- What the tasks and the servers keep, from the start on.
use mathlib.Core.Path.{subst}
use liberdus_proxy.Prelude.{
  if-P, ◌<◌, ◌≡◌, refl, ◌∙◌, sym, ap, ◌⊎◌, inl, inr, ◌↔◌, Bool, true, false, Option, none, some,
  List, [], Text, Result, ok, err, Outcome, returned, panicked, if◌then◌else◌,
}
use liberdus_proxy.Config.{Config, load}
use liberdus_proxy.Crypto.{Sodium, ShardusCrypto}
use liberdus_proxy.Tls.{Rustls, and_then, configure_tls}
use liberdus_proxy.Archivers.{ArchiverUtil, discover}
use liberdus_proxy.Archivers
use liberdus_proxy.Archivers.Discovered.{IsAscending, discover_lem}
use liberdus_proxy.Liberdus.Float.{Floats}
use liberdus_proxy.Liberdus.State.{
  Consensor, Archiver, Fetch, node_list, failed, unreadable, Liberdus, install,
  update_active_nodelist, set_consensor_trip_ms, run_pending,
}
use liberdus_proxy.Liberdus.State
use liberdus_proxy.Liberdus.State.Update.{Settles, update_active_nodelist-decides}
use liberdus_proxy.Liberdus.Prepare.{prepare_list}
use liberdus_proxy.Liberdus.Select.{advance_index}
use liberdus_proxy.Liberdus.Select.Leaves.{Leaves, IsClosed, Leaves-next}
use liberdus_proxy.Liberdus.Sound.{SignLaws, IsSound}
use liberdus_proxy.Liberdus.Sound.Laws.{IsSound-install}
use liberdus_proxy.Liberdus.Sound.Steps.{
  Step, refreshes, discovers, inserts, chooses, choice_died, unchanged, prepared, records, here,
  next, IsSound-PromptRun, PromptRun-IsSound,
}
use liberdus_proxy.Startup.{
  Boot, booted, or_exit, or_die, run, Files, System, tls_acceptor, start, discover_shared, refresh,
  with_nodes, boot, IsRequest, Tick, refreshed, refresh_died, discovered, listens, serves,
  IsPromptTick, ArePrompt, Ticks, idle, ticks,
}

settled_list :
    {F : Type 0} (x : Fetch F) (l l' : Liberdus F) (r : Outcome (Liberdus F))
    → Settles x l r
    → r ≡ returned l'
    → (nodes : List (Consensor F)) × (l' ≡ install nodes l)
settled_list (node_list nodes) l l' r h e =
    let same : returned l' ≡ returned (install nodes l) = sym e ∙ h in (nodes, cc)
settled_list failed l l' r h e = absurd h
settled_list unreadable l l' r h e = let same : returned l' ≡ panicked = sym e ∙ h in absurd (cc)

-- The state after a refresh that returns: as before, or with a list installed.
refresh-cases :
    {F : Type 0} (fetch : Archiver → Fetch F) (l l' : Liberdus F)
    → update_active_nodelist fetch l ≡ returned l'
    → (l' ≡ l) ⊎ ((nodes : List (Consensor F)) × (l' ≡ install nodes l))
refresh-cases fetch l l' e = elim (update_active_nodelist-decides fetch l) [
  | inl (bad, same) ↦ let both : returned l' ≡ returned l = sym e ∙ same in inl (cc)
  | inr (tried, a, others, split, bad, settled) ↦ inr (settled_list (fetch a) l l' _ settled e)
]

module _ {F : Type 0} ⦃o : Floats F⦄ where
  -- The settings and the archivers of `l`.
  HasSame : Liberdus F → Liberdus F → Type 0
  HasSame l s = (s.config ≡ l.config) × (s.archivers ≡ l.archivers)

  IsClosed-HasSame : (l : Liberdus F) → IsClosed o (HasSame l)
  unfolding HasSame prepare_list advance_index
  IsClosed-HasSame l = record {
    prepared = λ s v. if-P (HasSame l) s.list_prepared s _ (λ e. v) (λ e. v);
    advanced = λ s v. v;
    unprepared = λ s v. v;
  }

  HasSame-request : (s t : Liberdus F) (step : Step s t) → IsRequest step → HasSame s t
  unfolding HasSame run_pending set_consensor_trip_ms advance_index
  HasSame-request s _ (refreshes nodes) h = absurd h
  HasSame-request s _ (discovers archivers) h = absurd h
  HasSame-request s _ (inserts before rest id t e) h = (refl, refl)
  HasSame-request s _ (chooses rng chosen t e) h =
      subst (Leaves (HasSame s)) e (Leaves-next (HasSame s) (IsClosed-HasSame s) rng s (refl, refl))
  HasSame-request s _ (choice_died rng t e unchanged) h = (refl, refl)
  HasSame-request s _ (choice_died rng t e prepared) h =
      (IsClosed-HasSame s).prepared (advance_index s) (refl, refl)
  HasSame-request s _ (records id t) h =
      if-P (HasSame s) s.list_prepared s _ (λ e. (refl, refl)) (λ e. (refl, refl))

module _ {F C : Type 0} (o : Floats F) where
  -- One list of archivers, ascending by key; one configuration; an acceptor where it wants one; and
  -- a sound node list.
  pub record IsCoherent (s : System F C) : Type 0 where
    pub shared : s.liberdus.archivers ≡ s.util.active_archivers
    pub ascending : IsAscending s.util.active_archivers
    pub util_config : s.util.config ≡ s.config
    pub nodes_config : s.liberdus.config ≡ s.config
    pub secured : (s.acceptor ≡ none) ↔ (s.config.tls.enabled ≡ false)
    pub sound : IsSound o s.config.max_http_timeout_ms s.liberdus

module _ {F C : Type 0} ⦃o : Floats F⦄ (laws : SignLaws o) where
  IsCoherent-with_liberdus :
      (s : System F C) (l : Liberdus F)
      → (l.config ≡ s.liberdus.config) × (l.archivers ≡ s.liberdus.archivers)
      → IsSound o s.config.max_http_timeout_ms l
      → IsCoherent o s
      → IsCoherent o (record s { liberdus = l })
  IsCoherent-with_liberdus s l (config, archivers) sound v = record {
    shared = archivers ∙ v.shared;
    ascending = v.ascending;
    util_config = v.util_config;
    nodes_config = config ∙ v.nodes_config;
    secured = v.secured;
    sound = sound;
  }

  IsCoherent-installed :
      (s : System F C) (l : Liberdus F)
      → (l ≡ s.liberdus) ⊎ ((nodes : List (Consensor F)) × (l ≡ install nodes s.liberdus))
      → IsCoherent o s
      → IsCoherent o (record s { liberdus = l })
  unfolding install
  IsCoherent-installed s l (inl same) v =
      IsCoherent-with_liberdus s l
        (ap (λ (l : Liberdus F). l.config) same, ap (λ (l : Liberdus F). l.archivers) same)
        (subst (IsSound o s.config.max_http_timeout_ms) (sym same) v.sound) v
  IsCoherent-installed s l (inr (nodes, same)) v =
      IsCoherent-with_liberdus s l
        (ap (λ (l : Liberdus F). l.config) same, ap (λ (l : Liberdus F). l.archivers) same)
        (subst (IsSound o s.config.max_http_timeout_ms) (sym same)
          (IsSound-install laws s.config.max_http_timeout_ms nodes s.liberdus v.sound))
        v

  IsCoherent-refresh :
      (fetch : Archiver → Fetch F) (s t : System F C)
      → refresh fetch s ≡ returned t
      → IsCoherent o s
      → IsCoherent o t
  unfolding refresh with_nodes
  IsCoherent-refresh fetch s t e v = go (update_active_nodelist fetch s.liberdus) refl e
    where
      go :
          (r : Outcome (Liberdus F))
          → update_active_nodelist fetch s.liberdus ≡ r
          → with_nodes s r ≡ returned t
          → IsCoherent o t
      go panicked e' e'' = absurd (cc)
      go (returned l) e' e'' =
          let same : record s { liberdus = l } ≡ t = cc in
          subst (IsCoherent o) same
            (IsCoherent-installed s l (refresh-cases fetch s.liberdus l e') v)

  IsCoherent-discover_shared :
      (arrive : List Archiver → List (Option (List Archiver))) (s : System F C)
      → IsCoherent o s
      → IsCoherent o (discover_shared arrive s)
  unfolding discover_shared discover
  IsCoherent-discover_shared arrive s v = record {
    shared = refl;
    ascending = (discover_lem arrive s.util).0;
    util_config = v.util_config;
    nodes_config = v.nodes_config;
    secured = v.secured;
    sound =
        IsSound-PromptRun laws s.config.max_http_timeout_ms s.liberdus _
          (next here (discovers (discover arrive s.util).active_archivers) tt) v.sound;
  }

  IsCoherent-Tick :
      (s t : System F C) (tick : Tick s t) → IsPromptTick tick → IsCoherent o s → IsCoherent o t
  unfolding HasSame
  IsCoherent-Tick s _ (refreshed fetch t alive e) prompt v = IsCoherent-refresh fetch s t e v
  IsCoherent-Tick s _ (refresh_died fetch alive e) prompt v = record {
    shared = v.shared;
    ascending = v.ascending;
    util_config = v.util_config;
    nodes_config = v.nodes_config;
    secured = v.secured;
    sound = v.sound;
  }
  IsCoherent-Tick s _ (discovered arrive) prompt v = IsCoherent-discover_shared arrive s v
  IsCoherent-Tick s _ (listens h) prompt v = record {
    shared = v.shared;
    ascending = v.ascending;
    util_config = v.util_config;
    nodes_config = v.nodes_config;
    secured = v.secured;
    sound = v.sound;
  }
  IsCoherent-Tick s _ (serves l step h is_request) prompt v =
      IsCoherent-with_liberdus s l (HasSame-request s.liberdus l step is_request)
        (IsSound-PromptRun laws s.config.max_http_timeout_ms s.liberdus l (next here step prompt)
          v.sound)
        v

  IsCoherent-Ticks :
      (s t : System F C) (later : Ticks s t) → ArePrompt later → IsCoherent o s → IsCoherent o t
  IsCoherent-Ticks s _ idle prompt v = v
  IsCoherent-Ticks s _ (ticks {t} {u} before tick) (prompts, prompt) v =
      IsCoherent-Tick t u tick prompt (IsCoherent-Ticks s t before prompts v)

or_exit-booted :
    {A B : Type 0} (r : Result Text A) (rest : A → Boot B) (b : B)
    → or_exit r rest ≡ booted b
    → (a : A) × (r ≡ ok a) × (rest a ≡ booted b)
unfolding or_exit
or_exit-booted (ok a) rest b e = (a, refl, e)
or_exit-booted (err m) rest b e = absurd (cc)

or_die-booted :
    {A B : Type 0} (r : Result Text A) (rest : A → Boot B) (b : B)
    → or_die r rest ≡ booted b
    → (a : A) × (r ≡ ok a) × (rest a ≡ booted b)
unfolding or_die
or_die-booted (ok a) rest b e = (a, refl, e)
or_die-booted (err m) rest b e = absurd (cc)

run-booted :
    {A B : Type 0} (r : Outcome A) (rest : A → Boot B) (b : B)
    → run r rest ≡ booted b
    → (a : A) × (r ≡ returned a) × (rest a ≡ booted b)
unfolding run
run-booted (returned a) rest b e = (a, refl, e)
run-booted panicked rest b e = absurd (cc)

secured_iff :
    {C : Type 0} (enabled : Bool) (r : Result Text C) (acceptor : Option C)
    → (if enabled then and_then r (λ c. ok (some c)) else ok none) ≡ ok acceptor
    → (acceptor ≡ none) ↔ (enabled ≡ false)
secured_iff true (ok c) acceptor e = (λ h. absurd (cc), λ h. absurd (cc))
secured_iff true (err m) acceptor e = absurd (cc)
secured_iff false r acceptor e = (λ h. refl, λ h. cc)

tls_acceptor-none_iff :
    {R C : Type 0} (rustls : Rustls R C) (config : Config) (acceptor : Option C)
    → tls_acceptor rustls config ≡ ok acceptor
    → (acceptor ≡ none) ↔ (config.tls.enabled ≡ false)
unfolding tls_acceptor
tls_acceptor-none_iff rustls config acceptor e =
    secured_iff config.tls.enabled (configure_tls rustls config.tls.cert_path config.tls.key_path)
      acceptor e

module _ {F R C PK SK : Type 0} ⦃o : Floats F⦄ (laws : SignLaws o) (files : Files)
    (rustls : Rustls R C) (sodium : Sodium PK SK)
    (arrive : List Archiver → List (Option (List Archiver))) (fetch : Archiver → Fetch F) where
  IsCoherent-start :
      (config : Config) (acceptor : Option C) (crypto : ShardusCrypto) (seed : List Archiver)
      → 0 < config.max_http_timeout_ms
      → (acceptor ≡ none) ↔ (config.tls.enabled ≡ false)
      → IsCoherent o
          (start config acceptor crypto (Archivers.new files.is_removed files.cache seed config))
  unfolding start Archivers.new State.new
  IsCoherent-start config acceptor crypto seed pos secured = record {
    shared = refl;
    ascending = tt;
    util_config = refl;
    nodes_config = refl;
    secured = secured;
    sound = PromptRun-IsSound laws [] config (State.new [] config) pos here;
  }

  -- Where `main` goes on, with the laws of the floats' signs and a timeout in the settings that is not
  -- 0, and as long as no trip time above that is recorded, every state that its tasks and the requests
  -- reach is coherent: one list of archivers behind both pointers, ascending by public key; the
  -- settings everywhere; a TLS acceptor exactly where they want one; and a sound node list. A refresh
  -- and a call for a node count as one step each, which the code does not ensure.
  pub IsCoherent-boot :
      (s t : System F C)
      → boot files rustls sodium arrive fetch ≡ booted s
      → ((config : Config)
          → load files.read_to_string files.config_from_str ≡ ok config
          → 0 < config.max_http_timeout_ms)
      → (later : Ticks s t) → ArePrompt later
      → IsCoherent o t
  unfolding boot
  IsCoherent-boot s t e pos later prompt =
      let (config, loaded, e1) = or_exit-booted _ _ s e in
      let (acceptor, secured, e2) = or_exit-booted _ _ s e1 in
      let (seed_data, read, e3) = or_die-booted _ _ s e2 in
      let (seed, parsed, e4) = or_die-booted _ _ s e3 in
      let (crypto, made, e5) = run-booted _ _ s e4 in
      let (first, done, e6) = run-booted _ _ s e5 in
      let first_state : System F C =
        discover_shared arrive
          (start config acceptor crypto (Archivers.new files.is_removed files.cache seed config)) in
      let same : first ≡ s = cc in
      IsCoherent-Ticks laws s t later prompt (
        subst (IsCoherent o) same (
          IsCoherent-refresh laws fetch first_state first done (
            IsCoherent-discover_shared laws arrive _ (
              IsCoherent-start config acceptor crypto seed (pos config loaded)
                (tls_acceptor-none_iff rustls config acceptor secured)))))
