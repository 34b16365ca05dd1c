-- ===== src/Startup.antt =====
-- `main` of src/main.rs: what is read and set up before the servers listen, and the tasks that it
-- spawns.
pub mod Coherent
pub mod Frozen
mod Tests
use liberdus_proxy.Prelude.{
  Bool, true, false, Option, none, some, List, Text, if◌then◌else◌, Result, ok, err, Outcome,
  returned, panicked, length, ◌<◌, ◌≡◌, ℕ,
}
use liberdus_proxy.Config.{Config, load}
use liberdus_proxy.Crypto.{Sodium, ShardusCrypto}
use liberdus_proxy.Crypto
use liberdus_proxy.Tls.{Rustls, and_then, configure_tls}
use liberdus_proxy.Archivers.{ArchiverUtil, discover}
use liberdus_proxy.Archivers
use liberdus_proxy.Liberdus.Float.{Floats}
use liberdus_proxy.Liberdus.State.{Archiver, Fetch, Liberdus, update_active_nodelist}
use liberdus_proxy.Liberdus.State
use liberdus_proxy.Liberdus.Sound.Steps.{
  Step, IsPrompt, choice_died, refreshes, discovers, inserts, chooses, records,
}

-- `exit(1)`, a panic, or what `main` goes on with.
pub data Boot (A : Type 0) : Type 0 where
  exited died : Boot A
  booted : A → Boot A

unfoldable pub or_exit : {A B : Type 0} → Result Text A → (A → Boot B) → Boot B
or_exit (ok a) rest = rest a
or_exit (err e) rest = exited

-- `unwrap` of a result
unfoldable pub or_die : {A B : Type 0} → Result Text A → (A → Boot B) → Boot B
or_die (ok a) rest = rest a
or_die (err e) rest = died

unfoldable pub run : {A B : Type 0} → Outcome A → (A → Boot B) → Boot B
run (returned a) rest = rest a
run panicked rest = died

-- The files, what serde reads in them, and the cache of archivers from an earlier run.
pub record Files : Type 0 where
  pub read_to_string : Text → Result Text Text
  pub config_from_str : Text → Result Text Config
  pub archivers_from_str : Text → Result Text (List Archiver)
  pub is_removed : Bool
  pub cache : List Archiver

-- What `main` shares among its tasks. `liberdus.archivers` is the list of `util`, through one
-- pointer. The task that refreshes the nodes may have died.
pub record System (F C : Type 0) : Type 0 where
  pub config : Config
  pub acceptor : Option C
  pub crypto : ShardusCrypto
  pub util : ArchiverUtil
  pub liberdus : Liberdus F
  pub is_refreshing : Bool
  pub is_listening : Bool

module _ {R C : Type 0} (rustls : Rustls R C) where
  -- A TLS acceptor where the settings want one.
  unfoldable pub tls_acceptor : Config → Result Text (Option C)
  tls_acceptor config =
      if config.tls.enabled
      then and_then (configure_tls rustls config.tls.cert_path config.tls.key_path)
          (λ c. ok (some c))
      else ok none

module _ {F C : Type 0} where
  unfoldable pub start : Config → Option C → ShardusCrypto → ArchiverUtil → System F C
  start config acceptor crypto util = record {
    config = config;
    acceptor = acceptor;
    crypto = crypto;
    util = util;
    liberdus = State.new util.active_archivers config;
    is_refreshing = true;
    is_listening = false;
  }

  -- A discovery stores its list behind the pointer that both share.
  unfoldable pub discover_shared :
      (List Archiver → List (Option (List Archiver))) → System F C → System F C
  discover_shared arrive s =
      let util = discover arrive s.util in
      record s { util = util; liberdus = record s.liberdus { archivers = util.active_archivers } }

  with_nodes : System F C → Outcome (Liberdus F) → Outcome (System F C)
  with_nodes s panicked = panicked
  with_nodes s (returned liberdus) = returned (record s { liberdus = liberdus })

  unfoldable pub refresh : (Archiver → Fetch F) → System F C → Outcome (System F C)
  unfolding with_nodes
  refresh fetch s = with_nodes s (update_active_nodelist fetch s.liberdus)

-- Up to the first discovery and refresh, which are awaited.
unfoldable pub boot :
    {F R C PK SK : Type 0}
    → Files
    → Rustls R C
    → Sodium PK SK
    → (List Archiver → List (Option (List Archiver)))
    → (Archiver → Fetch F)
    → Boot (System F C)
boot files rustls sodium arrive fetch =
    or_exit (load files.read_to_string files.config_from_str) λ config.
      or_exit (tls_acceptor rustls config) λ acceptor.
        or_die (files.read_to_string config.archiver_seed_path) λ seed_data.
          or_die (files.archivers_from_str seed_data) λ seed.
            run (Crypto.new sodium config.crypto_seed) λ crypto.
              let util = Archivers.new files.is_removed files.cache seed config in
              run (refresh fetch (discover_shared arrive (start config acceptor crypto util)))
                booted

module _ {F : Type 0} ⦃o : Floats F⦄ where
  -- Not the tasks of `main`, but the requests that are served, and what they have spawned.
  abbrev pub IsRequest : {s t : Liberdus F} → Step s t → Type 0
  IsRequest (refreshes nodes) = ⊥
  IsRequest (discovers archivers) = ⊥
  IsRequest (inserts before rest id t e) = Unit
  IsRequest (chooses rng chosen t e) = Unit
  IsRequest (choice_died rng t e unwound) = Unit
  IsRequest (records id t) = Unit

module _ {F C : Type 0} ⦃o : Floats F⦄ where
  -- A tick of one of the tasks, the end of the wait for nodes, and what the servers do after it.
  pub data Tick (s : System F C) : System F C → Type 0 where
    refreshed :
        (fetch : Archiver → Fetch F) (t : System F C)
        → s.is_refreshing ≡ true
        → refresh fetch s ≡ returned t
        → Tick s t
    refresh_died :
        (fetch : Archiver → Fetch F)
        → s.is_refreshing ≡ true
        → refresh fetch s ≡ panicked
        → Tick s (record s { is_refreshing = false })
    discovered :
        (arrive : List Archiver → List (Option (List Archiver))) → Tick s (discover_shared arrive s)
    listens : 0 < length s.liberdus.active_nodelist → Tick s (record s { is_listening = true })
    serves :
        (l : Liberdus F) (step : Step s.liberdus l)
        → s.is_listening ≡ true
        → IsRequest step
        → Tick s (record s { liberdus = l })

  -- No trip time above the timeout is recorded.
  abbrev pub IsPromptTick : {s t : System F C} → Tick s t → Type 0
  IsPromptTick (serves l step h is_request) = IsPrompt step
  IsPromptTick _ = Unit

  pub data Ticks (s : System F C) : System F C → Type 0 where
    idle : Ticks s s
    ticks : {t u : System F C} → Ticks s t → Tick t u → Ticks s u

  abbrev pub ArePrompt : {s t : System F C} → Ticks s t → Type 0
  ArePrompt idle = Unit
  ArePrompt (ticks before tick) = ArePrompt before × IsPromptTick tick
