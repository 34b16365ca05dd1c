-- ===== src/Liberdus/Account.antt =====
-- `get_account_by_address` of src/liberdus.rs: the collector is asked first, then a node.
pub mod Source
use liberdus_proxy.Prelude.{
  ℕ, Bool, true, false, Option, none, some, Text, codes, if◌then◌else◌, Result, ok, err, Outcome,
  returned, panicked,
}
use liberdus_proxy.Liberdus.Float.{Floats, Rng}
use liberdus_proxy.Liberdus.State.{Consensor, Liberdus}
use liberdus_proxy.Liberdus.Select.{get_next_appropriate_consensor}

-- What the request to a node comes to: no response, a body that is no `GetAccountResp`, or the
-- account in it.
pub data AccountFetch (V : Type 0) : Type 0 where
  unreachable unreadable : AccountFetch V
  account_of : V → AccountFetch V

-- `V` is `serde_json::Value`, of which the code builds and compares the value `false`.
module _ {F V : Type 0} ⦃o : Floats F⦄ (false_value : V) (is_false : V → Bool)
    (fetch : Consensor F → Text → AccountFetch V) where
  unfoldable pub account_from : AccountFetch V → Result Text V
  account_from unreachable = err (codes "Failed to get account")
  account_from unreadable = err (codes "Failed to parse account")
  account_from (account_of account) = ok account

  -- `unwrap_or(serde_json::Value::Bool(false))`
  abbrev pub or_false : Option V → V
  or_false none = false_value
  or_false (some account) = account

  unfoldable pub ask_node :
      Text → Outcome (Option (ℕ × Consensor F) × Liberdus F) → Outcome (Result Text V × Liberdus F)
  unfolding account_from
  ask_node address panicked = panicked
  ask_node address (returned (none, s)) = returned (err (codes "No consensor available"), s)
  ask_node address (returned (some (i, node), s)) = returned (account_from (fetch node address), s)

  -- From what the collector gave.
  unfoldable pub after_collector :
      Rng F → Option V → Text → Liberdus F → Outcome (Result Text V × Liberdus F)
  after_collector rng collected address s =
      if is_false (or_false collected)
      then ask_node address (get_next_appropriate_consensor rng s)
      else returned (ok (or_false collected), s)

  -- The collector's fetch may panic, and the call with it.
  unfoldable pub get_account_by_address :
      Rng F → Outcome (Option V) → Text → Liberdus F → Outcome (Result Text V × Liberdus F)
  unfolding after_collector
  get_account_by_address rng collected address s = elim collected [
    | panicked ↦ panicked
    | returned found ↦ after_collector rng found address s
  ]
