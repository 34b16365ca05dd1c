-- ===== src/Liberdus/Account/Source.antt =====
-- Where an account comes from.
use liberdus_proxy.Prelude.{
  ℕ, ◌≡◌, refl, Bool, true, false, Option, none, some, Text, get_elem?, Result, ok, err, Outcome,
  returned, panicked, ◌⊎◌, inl, inr, Bool-cases,
}
use liberdus_proxy.Liberdus.Float.{Floats, FloatLaws, Rng, RngLaws}
use liberdus_proxy.Liberdus.State.{Consensor, Liberdus}
use liberdus_proxy.Liberdus.Prepare.{prepare_list}
use liberdus_proxy.Liberdus.Select.{Choice, get_next_appropriate_consensor}
use liberdus_proxy.Liberdus.Select.Serves.{
  IsWellFormed, IsDrawable, Serves, Serves-get_next_appropriate_consensor,
}
use liberdus_proxy.Liberdus.Account.{
  AccountFetch, account_of, account_from, or_false, ask_node, after_collector,
  get_account_by_address,
}

module _ {F V : Type 0} ⦃o : Floats F⦄ (false_value : V) (is_false : V → Bool)
    (fetch : Consensor F → Text → AccountFetch V) (address : Text) where
  -- An error, or an account that a node of the list gave for the address.
  abbrev pub FromNode : Outcome (Result Text V × Liberdus F) → Type 0
  FromNode panicked = ⊥
  FromNode (returned (err e, s)) = Unit
  FromNode (returned (ok account, s)) =
      (index : ℕ) × (node : Consensor F) × (get_elem? s.active_nodelist index ≡ some node)
      × (fetch node address ≡ account_of account)

  FromNode-answer :
      (node : Consensor F) (index : ℕ) (s : Liberdus F) (answer : AccountFetch V)
      → get_elem? s.active_nodelist index ≡ some node
      → fetch node address ≡ answer
      → FromNode (returned (account_from false_value is_false fetch answer, s))
  unfolding account_from
  FromNode-answer node index s AccountFetch.unreachable e f = tt
  FromNode-answer node index s AccountFetch.unreadable e f = tt
  FromNode-answer node index s (account_of account) e f = (index, node, e, f)

  FromNode-ask_node :
      (c : Choice F) → Serves c → FromNode (ask_node false_value is_false fetch address c)
  unfolding ask_node
  FromNode-ask_node panicked h = absurd h
  FromNode-ask_node (returned (none, s)) h = tt
  FromNode-ask_node (returned (some (index, node), s)) h =
      FromNode-answer node index s (fetch node address) (h.0) refl

  -- The collector's account, with no node chosen; or what a node gave.
  abbrev pub ComesFrom :
      Rng F → Option V → Liberdus F → Outcome (Result Text V × Liberdus F) → Type 0
  ComesFrom rng found s result =
      ((is_false (or_false false_value is_false fetch found) ≡ false)
        × (result ≡ returned (ok (or_false false_value is_false fetch found), s)))
      ⊎ ((is_false (or_false false_value is_false fetch found) ≡ true) × FromNode result)

  ComesFrom-after_collector :
      FloatLaws o
      → (rng : Rng F) → RngLaws o rng
      → (found : Option V) (s : Liberdus F) → IsWellFormed s
      → IsDrawable (prepare_list s)
      → ComesFrom rng found s (after_collector false_value is_false fetch rng found address s)
  unfolding after_collector
  ComesFrom-after_collector laws rng draws found s v d =
      elim (Bool-cases (is_false (or_false false_value is_false fetch found))) [
        | inl e ↦ inr (
          e,
          rw e (
              FromNode-ask_node (get_next_appropriate_consensor rng s)
                (Serves-get_next_appropriate_consensor laws rng draws s v d)),
        )
        | inr e ↦ inl (e, rw e refl)
      ]

  -- The call panics where the collector's fetch does. Where that returns, the collector's account is
  -- returned when it is there and not `false`, with no node chosen; otherwise, with the laws of the
  -- floats and of the draws, from a well-formed state whose weights leave a range to draw from, the
  -- result is an error or the account that a node of the list gave for the address.
  pub get_account_by_address-source :
      FloatLaws o
      → (rng : Rng F) → RngLaws o rng
      → (collected : Outcome (Option V)) (s : Liberdus F) → IsWellFormed s
      → IsDrawable (prepare_list s)
      → ((collected ≡ panicked)
          × (get_account_by_address false_value is_false fetch rng collected address s ≡ panicked))
        ⊎ ((found : Option V) × (collected ≡ returned found)
            × ComesFrom rng found s
                (get_account_by_address false_value is_false fetch rng collected address s))
  unfolding get_account_by_address
  get_account_by_address-source laws rng draws panicked s v d = inl (refl, refl)
  get_account_by_address-source laws rng draws (returned found) s v d =
      inr (found, refl, ComesFrom-after_collector laws rng draws found s v d)
