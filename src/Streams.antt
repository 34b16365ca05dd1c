-- ===== src/Streams.antt =====
-- src/stream.rs: one stream over TCP or TLS. The file is not a module of the crate.
pub mod Halves
use liberdus_proxy.Prelude.{Text, Result, ok, err}

-- The operations of tokio on a stream `S`: what they give, and the stream after them.
pub record AsyncStream (S : Type 0) : Type 0 where
  pub read : S → Result Text Text × S
  pub read_exact : S → Result Text Text × S
  pub read_to_end : S → Result Text Text × S
  pub write_all : Text → S → Result Text (Unit {0}) × S
  pub flush : S → Result Text (Unit {0}) × S
  pub shutdown : S → Result Text (Unit {0}) × S

-- `UnifiedStream`, `ReadHalfStream` and `WriteHalfStream`, over what is plain and what is TLS.
pub data Lots (P T : Type 0) : Type 0 where
  plain : P → Lots P T
  tls : T → Lots P T

abbrev on_plain : {P T A : Type 0} → A × P → A × Lots P T
on_plain (a, p) = (a, plain p)

abbrev on_tls : {P T A : Type 0} → A × T → A × Lots P T
on_tls (a, t) = (a, tls t)

module _ {S : Type 0} (ops : AsyncStream S) where
  -- On TLS the result of the write is dropped: that of the flush counts.
  unfoldable pub write_flush : Text → S → Result Text (Unit {0}) × S
  write_flush buf s = ops.flush ((ops.write_all buf s).1)

  -- An error of the flush is printed.
  unfoldable pub flush_shutdown : S → Result Text (Unit {0}) × S
  flush_shutdown s = ops.shutdown ((ops.flush s).1)

module _ {P T : Type 0} (tcp : AsyncStream P) (over_tls : AsyncStream T) where
  unfoldable pub read_to_end : Lots P T → Result Text Text × Lots P T
  read_to_end (plain p) = on_plain (tcp.read_to_end p)
  read_to_end (tls t) = on_tls (over_tls.read_to_end t)

  unfoldable pub read_exact : Lots P T → Result Text Text × Lots P T
  read_exact (plain p) = on_plain (tcp.read_exact p)
  read_exact (tls t) = on_tls (over_tls.read_exact t)

  unfoldable pub read : Lots P T → Result Text Text × Lots P T
  read (plain p) = on_plain (tcp.read p)
  read (tls t) = on_tls (over_tls.read t)

  unfoldable pub write_all : Text → Lots P T → Result Text (Unit {0}) × Lots P T
  unfolding write_flush
  write_all buf (plain p) = on_plain (tcp.write_all buf p)
  write_all buf (tls t) = on_tls (write_flush over_tls buf t)

  unfoldable pub shutdown : Lots P T → Result Text (Unit {0}) × Lots P T
  unfolding flush_shutdown
  shutdown (plain p) = on_plain (tcp.shutdown p)
  shutdown (tls t) = on_tls (flush_shutdown over_tls t)

-- `split`, by tokio's on each kind.
unfoldable pub split :
    {P T PR PW TR TW : Type 0} → (P → PR × PW) → (T → TR × TW) → Lots P T → Lots PR TR × Lots PW TW
split split_tcp split_tls (plain p) = (plain ((split_tcp p).0), plain ((split_tcp p).1))
split split_tcp split_tls (tls t) = (tls ((split_tls t).0), tls ((split_tls t).1))
