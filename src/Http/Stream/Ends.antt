-- ===== src/Http/Stream/Ends.antt =====
-- What ends a connection.
use liberdus_proxy.Prelude.{ℕ, suc, ◌≡◌, refl, ap, Option, none, List, [], ◌∷◌, ◌++◌, Text}
use liberdus_proxy.Config.{Config}
use liberdus_proxy.Http.Route.{get_route}
use liberdus_proxy.Http.Stream.{
  Arrival, collected, failed, idle, Handlers, routed, handle_each, handle_stream,
}

-- No request: the client has closed, an error, no end in time, or a buffer without a route.
abbrev pub EndsStream : Arrival → Type 0
EndsStream (collected []) = Unit
EndsStream (collected (b ∷ bs)) = get_route (b ∷ bs) ≡ none
EndsStream (failed e) = Unit
EndsStream idle = Unit

module _ {S : Type 0} (handlers : Handlers S) (config : Config) (writes : ℕ → Option Text) where
  handle_each-end :
      (last : Arrival) (after : List Arrival) (n : ℕ) (s : S)
      → EndsStream last
      → handle_each handlers config writes (last ∷ after) n s
        ≡ handle_each handlers config writes (last ∷ []) n s
  unfolding handle_each routed
  handle_each-end (collected []) after n s h = refl
  handle_each-end (collected (b ∷ bs)) after n s h = rw h refl
  handle_each-end (failed e) after n s h = refl
  handle_each-end idle after n s h = refl

  handle_each-ends :
      (before : List Arrival) (last : Arrival) (after : List Arrival) (n : ℕ) (s : S)
      → EndsStream last
      → handle_each handlers config writes (before ++ (last ∷ after)) n s
        ≡ handle_each handlers config writes (before ++ (last ∷ [])) n s
  unfolding handle_each
  handle_each-ends [] last after n s h = handle_each-end last after n s h
  handle_each-ends (collected [] ∷ before) last after n s h = refl
  handle_each-ends (collected (b ∷ bs) ∷ before) last after n s h =
      ap (routed handlers config writes n (get_route (b ∷ bs)) (b ∷ bs) s)
        (λ i s'. handle_each-ends before last after (suc n) s' h i)
  handle_each-ends (failed e ∷ before) last after n s h = refl
  handle_each-ends (idle ∷ before) last after n s h = refl

  -- After an empty buffer, an error, a timeout or a buffer without a route nothing more is read:
  -- what would arrive later changes neither what is written, nor the state, nor the result.
  pub handle_stream-ends :
      (before : List Arrival) (last : Arrival) (after : List Arrival) (s : S)
      → EndsStream last
      → handle_stream handlers config writes (before ++ (last ∷ after)) s
        ≡ handle_stream handlers config writes (before ++ (last ∷ [])) s
  unfolding handle_stream
  handle_stream-ends before last after s h = handle_each-ends before last after 0 s h
