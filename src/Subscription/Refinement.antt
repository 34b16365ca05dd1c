-- ===== src/Subscription/Refinement.antt =====
-- The manager as a relation: which socket follows which account, with nothing of the two maps and
-- the timestamps.
use liberdus_proxy.Prelude.{
  Bool, true, false, ◌&&◌, Option, none, some, List, [], ◌∷◌, text_eq, text_beq, if◌then◌else◌, ◌≡◌,
  refl, ◌∙◌, ap,
}
use liberdus_proxy.Subscription.{
  SocketId, UserAccountAddress, Inner, AccountReply, subscribe, unsubscribe, unsubscribe_all,
  is_exist,
}
use liberdus_proxy.Subscription.Effect.{
  is_exist-subscribe, is_exist-unsubscribe, is_exist-unsubscribe_all,
}

-- The calls that the websocket connections make.
pub data Call : Type 0 where
  call_subscribe : AccountReply → SocketId → UserAccountAddress → Call
  call_unsubscribe : SocketId → UserAccountAddress → Call
  call_unsubscribe_all : SocketId → Call

-- A call on the manager, with the Boolean that it returns, if it returns one.
unfoldable pub perform : Call → Inner → Option Bool × Inner
perform (call_subscribe reply socket_id address) s =
    let done = subscribe reply socket_id address s in (some (done.0), done.1)
perform (call_unsubscribe socket_id address) s =
    let done = unsubscribe socket_id address s in (some (done.0), done.1)
perform (call_unsubscribe_all socket_id) s = (none, unsubscribe_all socket_id s)

unfoldable pub perform_each : List Call → Inner → List (Option Bool) × Inner
perform_each [] s = ([], s)
perform_each (c ∷ calls) s =
    let done = perform c s in let rest = perform_each calls (done.1) in (done.0 ∷ rest.0, rest.1)

abbrev pub Following : Type 0
Following = SocketId → UserAccountAddress → Bool

abbrev pub put : Bool → SocketId → UserAccountAddress → Following → Following
put b socket_id address f j a = if text_beq socket_id j && text_beq address a then b else f j a

-- The same call on a relation: it says what is there before, and sets or clears pairs.
abbrev pub specified : Call → Following → Option Bool × Following
specified (call_subscribe reply socket_id address) f =
    (some (if f socket_id address then false else true), put true socket_id address f)
specified (call_unsubscribe socket_id address) f =
    (some (f socket_id address), put false socket_id address f)
specified (call_unsubscribe_all socket_id) f =
    (none, λ j a. if text_beq socket_id j then false else f j a)

abbrev pub specified_each : List Call → Following → List (Option Bool) × Following
specified_each [] f = ([], f)
specified_each (c ∷ calls) f =
    let done = specified c f in
    let rest = specified_each calls (done.1) in (done.0 ∷ rest.0, rest.1)

-- What a state of the manager is as a relation.
unfoldable pub following : Inner → Following
following s j a = is_exist a j s

-- A state's part of a result, seen as a relation.
abbrev pub seen {ℓ} : {A : Type ℓ} → A × Inner → A × Following
seen (a, s) = (a, following s)

perform-refines : (c : Call) (s : Inner) → seen (perform c s) ≡ specified c (following s)
unfolding perform following
perform-refines (call_subscribe reply socket_id address) s = λ i. (
  some ((is_exist-subscribe reply socket_id address s address socket_id).1 i),
  λ j a. (is_exist-subscribe reply socket_id address s a j).0 i,
)
perform-refines (call_unsubscribe socket_id address) s = λ i. (
  some ((is_exist-unsubscribe socket_id address s address socket_id).1 i),
  λ j a. (is_exist-unsubscribe socket_id address s a j).0 i,
)
perform-refines (call_unsubscribe_all socket_id) s =
    λ i. (none, λ j a. is_exist-unsubscribe_all socket_id s a j i)

-- Any sequence of calls, from any state, returns what the relation says and leaves a state that is
-- the relation after them.
pub perform_each-refines :
    (calls : List Call) (s : Inner)
    → seen (perform_each calls s) ≡ specified_each calls (following s)
unfolding perform_each
perform_each-refines [] s = refl
perform_each-refines (c ∷ calls) s =
    let first : seen (perform c s) ≡ specified c (following s) = perform-refines c s in
    let rest = perform_each-refines calls ((perform c s).1) in
    ap (λ r. ((perform c s).0 ∷ r.0, r.1)) rest
    ∙ ap
        (λ (d : Option Bool × Following).
          (d.0 ∷ (specified_each calls (d.1)).0, (specified_each calls (d.1)).1))
        first
