-- ===== src/Http/Peer/Answer.antt =====
-- What the client gets for a forwarded request.
use liberdus_proxy.Prelude.{ℕ, ◌≡◌, none, [], ◌∷◌, Text, ok, err, ◌⊎◌}
use liberdus_proxy.Config.{Config}
use liberdus_proxy.Http.Respond.{gateway_timeout, internal_error}
use liberdus_proxy.Http.Collect.{IoError, collect_http}
use liberdus_proxy.Http.Peer.{
  Exchange, refused, connect_timeout, write_failed, write_timeout, sent, Client, Reply,
  set_keep_alive,
}

-- The client is there for every write.
abbrev pub IsConnected : Client → Type 0
IsConnected client = (n : ℕ) → client n ≡ none

-- A server that does not take the connection or the request in time.
abbrev pub IsSlow : Exchange → Type 0
IsSlow (refused e) = Unit
IsSlow connect_timeout = Unit
IsSlow (write_failed e) = ⊥
IsSlow write_timeout = Unit
IsSlow (sent reads elapsed) = ⊥

-- The bytes of a response that arrived whole, or as far as a server that closes early sent it.
abbrev pub Responds : Exchange → Text → Type 0
Responds (sent reads elapsed) response =
    ((collect_http reads).result ≡ ok tt) × ((collect_http reads).buffer ≡ response)
Responds _ response = ⊥

-- A server that fails otherwise, or says nothing.
abbrev pub IsBroken : Exchange → Type 0
IsBroken (write_failed e) = Unit
IsBroken (sent reads elapsed) =
    ((e : IoError) × ((collect_http reads).result ≡ err e)) ⊎ ((collect_http reads).buffer ≡ [])
IsBroken _ = ⊥

-- What is written and returned: one response, of the server's with the two headers set, or of the
-- proxy's.
pub data Answers (config : Config) (exchange : Exchange) : Reply → Type 0 where
  relayed :
      (b : ℕ) (bs : Text)
      → Responds exchange (b ∷ bs)
      → Answers config exchange
          (record { written = set_keep_alive config (b ∷ bs) ∷ []; result = ok tt })
  timed_out :
      (e : Text)
      → IsSlow exchange
      → Answers config exchange (record { written = gateway_timeout ∷ []; result = err e })
  failed :
      (e : Text)
      → IsBroken exchange
      → Answers config exchange (record { written = internal_error ∷ []; result = err e })
