-- ===== src/Subscription/Rpc/Totality.antt =====
-- Which requests are answered.
use liberdus_proxy.Prelude.{
  ℕ, ◌≡◌, ◌≢◌, ◌↔◌, refl, sym, ◌∙◌, false, Bool, true, false, Option, List, [], ◌∷◌, arith, Text,
  codes, map, text_beq, Outcome, returned, panicked, ◌⊎◌, inl, inr, Bool-cases, text_beq_iff,
}
use liberdus_proxy.Subscription.{SocketId, Inner, AccountReply, is_exist, subscribe_fetched}
use liberdus_proxy.Subscription.Rpc.{
  RpcRequest, subscribed_answer, SubscriptionActions, subscribe_action, perform, action_from,
  act_on, handle_params, text_or_empty, handle_subscriptions, ascii_lower,
}

-- The call does not panic.
abbrev pub is_returned {ℓ} : {A : Type ℓ} → Outcome A → Bool
is_returned (returned a) = true
is_returned panicked = false

abbrev pub Says : Text → Text → Type 0
Says word s = map ascii_lower s ≡ word

-- The first parameter is `unsubscribe`, or `subscribe`, in any case, and there is a second one; for
-- `subscribe` the socket follows that account already, or its lookup returns.
abbrev pub IsAnswerable : Outcome AccountReply → SocketId → Inner → List (Option Text) → Type 0
IsAnswerable fetched socket_id s [] = ⊥
IsAnswerable fetched socket_id s (action ∷ []) = ⊥
IsAnswerable fetched socket_id s (action ∷ addr ∷ rest) =
    (Says (codes "subscribe") (text_or_empty action)
      × ((is_exist (text_or_empty addr) socket_id s ≡ true) ⊎ (is_returned fetched ≡ true)))
    ⊎ Says (codes "unsubscribe") (text_or_empty action)

false≢true : false ≢ true
false≢true h = ground (arith, h)

-- The two words are not the same.
subscribe≢unsubscribe : (t : Text) → t ≡ codes "subscribe" → t ≡ codes "unsubscribe" → ⊥
subscribe≢unsubscribe t e e' =
    let same : text_beq (codes "subscribe") (codes "unsubscribe") ≡ true =
      (text_beq_iff _ _).1 (sym e ∙ e') in
    ground (arith, same)

module _ (fetched : Outcome AccountReply) (id : ℕ) (socket_id : SocketId) (s : Inner) where
  no_address :
      (o : Outcome SubscriptionActions) → is_returned (act_on fetched id o [] socket_id s) ≡ false
  unfolding act_on
  no_address panicked = refl
  no_address (returned a) = refl

  is_returned-answer :
      (addr : Text) (o : Outcome (Bool × Inner))
      → is_returned (subscribed_answer id addr o) ≡ is_returned o
  unfolding subscribed_answer
  is_returned-answer addr panicked = refl
  is_returned-answer addr (returned done) = refl

  is_returned-fetched :
      (f : Outcome AccountReply) (addr : Text)
      → (is_returned (subscribe_fetched f socket_id addr s) ≡ true)
        ↔ ((is_exist addr socket_id s ≡ true) ⊎ (is_returned f ≡ true))
  unfolding subscribe_fetched
  is_returned-fetched panicked addr = elim (Bool-cases (is_exist addr socket_id s)) [
    | inl e ↦ rw e (λ h. inl refl, λ h. refl)
    | inr e ↦ rw e (λ h. inr h, λ h. elim h [ inl e ↦ e | inr e ↦ e ])
  ]
  is_returned-fetched (returned reply) addr = elim (Bool-cases (is_exist addr socket_id s)) [
    | inl e ↦ rw e (λ h. inl refl, λ h. refl)
    | inr e ↦ rw e (λ h. inr refl, λ h. refl)
  ]

  is_returned-subscribe :
      (addr : Text)
      → (is_returned (perform fetched id subscribe_action socket_id addr s) ≡ true)
        ↔ ((is_exist addr socket_id s ≡ true) ⊎ (is_returned fetched ≡ true))
  unfolding perform
  is_returned-subscribe addr =
      rw (is_returned-answer addr (subscribe_fetched fetched socket_id addr s))
        (is_returned-fetched fetched addr)

  is_returned-action :
      (action addr : Option Text) (rest : List (Option Text))
      → (is_returned
            (act_on fetched id (action_from (text_or_empty action)) (addr ∷ rest) socket_id s)
          ≡ true)
        ↔ IsAnswerable fetched socket_id s (action ∷ addr ∷ rest)
  unfolding action_from act_on perform
  is_returned-action action addr rest =
      let word = map ascii_lower (text_or_empty action) in
      elim (Bool-cases (text_beq word (codes "subscribe"))) [
        | inl e ↦ rw e (
          λ h. inl ((text_beq_iff _ _).0 e, (is_returned-subscribe (text_or_empty addr)).0 h),
          λ h. elim h [
            | inl asked ↦ (is_returned-subscribe (text_or_empty addr)).1 (asked.1)
            | inr e' ↦ absurd (subscribe≢unsubscribe word ((text_beq_iff _ _).0 e) e')
          ],
        )
        | inr e ↦ elim (Bool-cases (text_beq word (codes "unsubscribe"))) [
          | inl e' ↦ rw (e, e') (λ h. inr ((text_beq_iff _ _).0 e'), λ h. refl)
          | inr e' ↦
              rw (e, e')
                (
                  λ h. absurd (false≢true h),
                  λ h. absurd (elim h [
                    | inl asked ↦ false≢true (sym e ∙ (text_beq_iff _ _).1 (asked.0))
                    | inr says ↦ false≢true (sym e' ∙ (text_beq_iff _ _).1 says)
                  ]),
                )
        ]
      ]

  is_returned-handle_params :
      (params : List (Option Text))
      → (is_returned (handle_params fetched id params socket_id s) ≡ true)
        ↔ IsAnswerable fetched socket_id s params
  unfolding handle_params
  is_returned-handle_params [] = (λ h. cc, λ h. absurd h)
  is_returned-handle_params (a ∷ []) =
      (λ h. cc (no_address (action_from (text_or_empty a))), λ h. absurd h)
  is_returned-handle_params (a ∷ b ∷ rest) = is_returned-action a b rest

-- A subscription request is answered exactly when it has two parameters of which the first is
-- `unsubscribe`, in any case, or is `subscribe` and the socket follows the account of the second
-- already or that account's lookup returns; any other panics.
pub is_returned-handle_subscriptions :
    (fetched : Outcome AccountReply) (req : RpcRequest) (socket_id : SocketId) (s : Inner)
    → (is_returned (handle_subscriptions fetched req socket_id s) ≡ true)
      ↔ IsAnswerable fetched socket_id s req.params
unfolding handle_subscriptions
is_returned-handle_subscriptions fetched req socket_id s =
    is_returned-handle_params fetched req.id socket_id s req.params
