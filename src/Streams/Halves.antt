-- ===== src/Streams/Halves.antt =====
-- A write through the half of a split stream, against one through the stream.
use liberdus_proxy.Prelude.{Text, Result, ◌≡◌, ◌∙◌, ap, List, [], ◌∷◌}
use liberdus_proxy.Streams.{
  AsyncStream, Lots, plain, tls, write_flush, flush_shutdown, write_all, shutdown, split,
}

-- Tokio's half writes, flushes and shuts down as the stream that it is a half of, and the stream is
-- then as after that.
pub record IsHalf {S W : Type 0} (whole : AsyncStream S) (half : AsyncStream W) (write_half : S → W)
    : Type 0 where
  pub writes :
      (buf : Text) (s : S)
      → half.write_all buf (write_half s)
        ≡ ((whole.write_all buf s).0, write_half ((whole.write_all buf s).1))
  pub flushes :
      (s : S) → half.flush (write_half s) ≡ ((whole.flush s).0, write_half ((whole.flush s).1))
  pub shuts :
      (s : S)
      → half.shutdown (write_half s) ≡ ((whole.shutdown s).0, write_half ((whole.shutdown s).1))

-- The results of some writes and of the shutdown after them.
pub session :
    {X : Type 0}
    → (Text → X → Result Text (Unit {0}) × X)
    → (X → Result Text (Unit {0}) × X)
    → List Text
    → X
    → List (Result Text (Unit {0}))
session write shut [] x = (shut x).0 ∷ []
session write shut (buf ∷ bufs) x = (write buf x).0 ∷ session write shut bufs ((write buf x).1)

module _ {S W : Type 0} (whole : AsyncStream S) (half : AsyncStream W) (write_half : S → W)
    (is_half : IsHalf whole half write_half) where
  write_flush-IsHalf :
      (buf : Text) (s : S)
      → write_flush half buf (write_half s)
        ≡ ((write_flush whole buf s).0, write_half ((write_flush whole buf s).1))
  unfolding write_flush
  write_flush-IsHalf buf s =
      ap (λ (r : Result Text (Unit {0}) × W). half.flush (r.1)) (is_half.writes buf s)
      ∙ is_half.flushes ((whole.write_all buf s).1)

  flush_shutdown-IsHalf :
      (s : S)
      → flush_shutdown half (write_half s)
        ≡ ((flush_shutdown whole s).0, write_half ((flush_shutdown whole s).1))
  unfolding flush_shutdown
  flush_shutdown-IsHalf s =
      ap (λ (r : Result Text (Unit {0}) × W). half.shutdown (r.1)) (is_half.flushes s)
      ∙ is_half.shuts ((whole.flush s).1)

module _ {P T PR PW TR TW : Type 0} (tcp : AsyncStream P) (tcp_half : AsyncStream PW)
    (over_tls : AsyncStream T) (tls_half : AsyncStream TW) (split_tcp : P → PR × PW)
    (split_tls : T → TR × TW) (is_tcp_half : IsHalf tcp tcp_half (λ p. (split_tcp p).1))
    (is_tls_half : IsHalf over_tls tls_half (λ t. (split_tls t).1)) where
  writer : Lots P T → Lots PW TW
  writer s = (split split_tcp split_tls s).1

  write_all-writer :
      (buf : Text) (s : Lots P T)
      → write_all tcp_half tls_half buf (writer s)
        ≡ ((write_all tcp over_tls buf s).0, writer ((write_all tcp over_tls buf s).1))
  unfolding write_all writer split
  write_all-writer buf (plain p) =
      ap (λ (r : Result Text (Unit {0}) × PW). (r.0, plain (r.1))) (is_tcp_half.writes buf p)
  write_all-writer buf (tls t) =
      ap (λ (r : Result Text (Unit {0}) × TW). (r.0, tls (r.1)))
        (write_flush-IsHalf over_tls tls_half (λ t. (split_tls t).1) is_tls_half buf t)

  shutdown-writer :
      (s : Lots P T)
      → shutdown tcp_half tls_half (writer s)
        ≡ ((shutdown tcp over_tls s).0, writer ((shutdown tcp over_tls s).1))
  unfolding shutdown writer split
  shutdown-writer (plain p) =
      ap (λ (r : Result Text (Unit {0}) × PW). (r.0, plain (r.1))) (is_tcp_half.shuts p)
  shutdown-writer (tls t) =
      ap (λ (r : Result Text (Unit {0}) × TW). (r.0, tls (r.1)))
        (flush_shutdown-IsHalf over_tls tls_half (λ t. (split_tls t).1) is_tls_half t)

  -- Writes and a shutdown give through the write half what they give through the stream.
  session-split :
      (bufs : List Text) (s : Lots P T)
      → session
          (write_all tcp_half tls_half)
          (shutdown tcp_half tls_half)
          bufs
          ((split split_tcp split_tls s).1)
        ≡ session (write_all tcp over_tls) (shutdown tcp over_tls) bufs s
  unfolding session writer
  session-split [] s =
      ap (λ (r : Result Text (Unit {0}) × Lots PW TW). r.0 ∷ []) (shutdown-writer s)
  session-split (buf ∷ bufs) s =
      ap
        (λ (r : Result Text (Unit {0}) × Lots PW TW).
          r.0 ∷ session (write_all tcp_half tls_half) (shutdown tcp_half tls_half) bufs (r.1))
        (write_all-writer buf s)
      ∙ ap (◌∷◌ ((write_all tcp over_tls buf s).0))
          (session-split bufs ((write_all tcp over_tls buf s).1))
