-- ===== src/Observer/Query/Resent.antt =====
-- The query that is sent on says what was read from the client's.
use mathlib.Core.List.{append_assoc}
use liberdus_proxy.Prelude.{
  ℕ, suc, ◌+◌, ◌/◌, ◌%◌, ◌<◌, ◌≡◌, refl, sym, ◌∙◌, ap, arith, Bool-cases, inl, inr, false, Option,
  none, some, List, [], ◌∷◌, ◌++◌, Text, codes, text_beq, text_beq_iff, text_eq, All, length, take,
  drop, ◌==◌,
}
use liberdus_proxy.Prelude.HashMap.{get, insert, get-insert}
use liberdus_proxy.Str.Find.{find, split_at, split_once}
use liberdus_proxy.Str.Find.Split.{split_once-find}
use liberdus_proxy.Str.Trim.{trim}
use liberdus_proxy.Str.Trim.Plain.{IsVisible, trim-visible}
use liberdus_proxy.Observer.Url.{url_encode, encode_onto, hex_digit, is_unreserved}
use liberdus_proxy.Observer.Url.RoundTrip.{url_decode-url_encode}
use liberdus_proxy.Observer.Query.{
  Params, value_of, put_param, put_pair, put_pairs, parse_query_params, print_params,
}

-- A character of a key: visible, and neither "&" nor "=".
abbrev pub IsKeyChar : ℕ → Type 0
IsKeyChar b = IsVisible b × ((b == b'&') ≡ false) × ((b == b'=') ≡ false)

-- Keys that stand for themselves in a query, values of ASCII characters, and no key twice.
pub data IsPlain : Params → Type 0 where
  done : IsPlain []
  param :
      {c : ℕ} {cs v : Text} {params : Params}
      → All IsKeyChar (c ∷ cs)
      → All (λ b. b < 128) v
      → get (c ∷ cs) params ≡ none
      → IsPlain params
      → IsPlain ((c ∷ cs, v) ∷ params)

abbrev IsQueryChar : ℕ → Type 0
IsQueryChar b = IsVisible b × ((b == b'&') ≡ false)

IsQueryChar-hex_digit : (n : ℕ) → n < 16 → IsQueryChar (hex_digit n)
IsQueryChar-hex_digit n h = ((ground (arith, h), ground (arith, h)), ground (arith, h))

All-encode_onto :
    (b : ℕ) (out : Text) → b < 128 → All IsQueryChar out → All IsQueryChar (encode_onto b out)
unfolding encode_onto
All-encode_onto b out h hs = elim (Bool-cases (is_unreserved b)) [
  | inl e ↦ rw e (((ground (arith, e), ground (arith, e)), ground (arith, e)), hs)
  | inr e ↦ elim (Bool-cases (b == b' ')) [
    | inl e' ↦ rw (e, e') (((omega arith, omega arith), refl), hs)
    | inr e' ↦
        rw (e, e')
          (
            ((omega arith, omega arith), refl),
            (
              IsQueryChar-hex_digit (b / 16) (omega (arith, h)),
              (IsQueryChar-hex_digit (b % 16) (omega arith), hs),
            ),
          )
  ]
]

All-url_encode : (v : Text) → All (λ b. b < 128) v → All IsQueryChar (url_encode v)
unfolding url_encode
All-url_encode [] h = tt
All-url_encode (b ∷ bs) (h, hs) = All-encode_onto b (url_encode bs) h (All-url_encode bs hs)

All-fst : (P Q : ℕ → Type 0) (s : Text) → All (λ b. P b × Q b) s → All P s
All-fst P Q [] h = tt
All-fst P Q (b ∷ bs) ((h, h'), hs) = (h, All-fst P Q bs hs)

pair_of : Text → Text → Text
pair_of k v = k ++ (b'=' ∷ url_encode v)

split_at-part :
    (s rest : Text)
    → All (λ b. (b == b'&') ≡ false) s
    → split_at b'&' (s ++ (b'&' ∷ rest)) ≡ s ∷ split_at b'&' rest
unfolding split_at
split_at-part [] rest h = refl
split_at-part (b ∷ bs) rest (h, hs) = rw (h, split_at-part bs rest hs) refl

split_at-last : (s : Text) → All (λ b. (b == b'&') ≡ false) s → split_at b'&' s ≡ s ∷ []
unfolding split_at
split_at-last [] h = refl
split_at-last (b ∷ bs) (h, hs) = rw (h, split_at-last bs hs) refl

find-key : (k w : Text) → All IsKeyChar k → find (k ++ (b'=' ∷ w)) (codes "=") ≡ some (length k)
unfolding find
find-key [] w h = refl
find-key (b ∷ bs) w ((h, h', h''), hs) = rw (find-key bs w hs, h'') refl

take-length : (k w : Text) → take (length k) (k ++ w) ≡ k
take-length [] w = refl
take-length (b ∷ bs) w = ap (◌∷◌ b) (take-length bs w)

drop-length : (k w : Text) → drop (length k + 1) (k ++ (b'=' ∷ w)) ≡ w
drop-length [] w = refl
drop-length (b ∷ bs) w =
    let next : suc (length bs) + 1 ≡ suc (length bs + 1) = omega arith in rw next (drop-length bs w)

split_once-key :
    (k w : Text) → All IsKeyChar k → split_once (k ++ (b'=' ∷ w)) (codes "=") ≡ (k, some w)
split_once-key k w h =
    split_once-find (k ++ (b'=' ∷ w)) (codes "=") (length k) (find-key k w h) ∙ λ i.
    (take-length k (b'=' ∷ w) i, some (drop-length k w i))

All-IsVisible : (k : Text) → All IsKeyChar k → All IsVisible k
All-IsVisible [] h = tt
All-IsVisible (b ∷ bs) ((h, h', h''), hs) = (h, All-IsVisible bs hs)

put_pair-pair_of :
    (c : ℕ) (cs v : Text) (out : Params)
    → All IsKeyChar (c ∷ cs)
    → All (λ b. b < 128) v
    → put_pair (pair_of (c ∷ cs) v) out ≡ insert (c ∷ cs) v out
unfolding put_pair pair_of put_param value_of
put_pair-pair_of c cs v out h hv =
    let w : Text = url_encode v in
    let key : trim (c ∷ cs) ≡ c ∷ cs = trim-visible (c ∷ cs) (All-IsVisible (c ∷ cs) h) in
    let value : trim w ≡ w =
      trim-visible w (All-fst IsVisible (λ b. (b == b'&') ≡ false) w (All-url_encode v hv)) in
    simp (split_once-key (c ∷ cs) w h, key, value, url_decode-url_encode v hv) refl

pairs : Params → List Text
pairs [] = []
pairs ((k, v) ∷ params) = pair_of k v ∷ pairs params

or_else : Option Text → Option Text → Option Text
or_else none b = b
or_else (some a) b = some a

get-put_pairs :
    (params out : Params) (j : Text)
    → IsPlain params
    → get j (put_pairs (pairs params) out) ≡ or_else (get j params) (get j out)
unfolding put_pairs pairs or_else get
get-put_pairs _ out j done = refl
get-put_pairs _ out j (param {c} {cs} {v} {params} h hv fresh plain) =
    ap (λ o. get j (put_pairs (pairs params) o)) (put_pair-pair_of c cs v out h hv)
    ∙ get-put_pairs params (insert (c ∷ cs) v out) j plain
    ∙ elim (Bool-cases (text_beq (c ∷ cs) j)) [
      | inl e ↦
          let absent : get j params ≡ none =
            ap (λ k. get k params) (sym ((text_beq_iff (c ∷ cs) j).0 e)) ∙ fresh in
          rw (absent, get-insert (c ∷ cs) j v out, e) refl
      | inr e ↦ rw (get-insert (c ∷ cs) j v out, e) refl
    ]

All-append : (P : ℕ → Type 0) (s t : Text) → All P s → All P t → All P (s ++ t)
All-append P [] t h h' = h'
All-append P (b ∷ bs) t (h, hs) h' = (h, All-append P bs t hs h')

All-snd : (P Q : ℕ → Type 0) (s : Text) → All (λ b. P b × Q b) s → All Q s
All-snd P Q [] h = tt
All-snd P Q (b ∷ bs) ((h, h'), hs) = (h', All-snd P Q bs hs)

IsJoined : ℕ → Type 0
IsJoined b = (b == b'&') ≡ false

All-key : (k : Text) → All IsKeyChar k → All IsJoined k
unfolding IsJoined
All-key [] h = tt
All-key (b ∷ bs) ((h, h', h''), hs) = (h', All-key bs hs)

All-pair_of : (k v : Text) → All IsKeyChar k → All (λ b. b < 128) v → All IsJoined (pair_of k v)
unfolding pair_of IsJoined
All-pair_of k v h hv =
    All-append IsJoined k (b'=' ∷ url_encode v) (All-key k h)
      (refl, All-snd IsVisible IsJoined (url_encode v) (All-url_encode v hv))

print_params-last : (k v : Text) → print_params ((k, v) ∷ []) ≡ pair_of k v
unfolding print_params pair_of
print_params-last k v = append_assoc k (codes "=") (url_encode v)

print_params-next :
    (k v k' v' : Text) (params : Params)
    → print_params ((k, v) ∷ (k', v') ∷ params)
      ≡ pair_of k v ++ (b'&' ∷ print_params ((k', v') ∷ params))
unfolding print_params pair_of
print_params-next k v k' v' params =
    append_assoc (k ++ codes "=" ++ url_encode v) (codes "&") (print_params ((k', v') ∷ params))
    ∙ ap (λ t. t ++ (b'&' ∷ print_params ((k', v') ∷ params)))
        (append_assoc k (codes "=") (url_encode v))

split_at-print_params :
    (k v : Text) (params : Params)
    → All IsKeyChar k
    → All (λ b. b < 128) v
    → IsPlain params
    → split_at b'&' (print_params ((k, v) ∷ params)) ≡ pairs ((k, v) ∷ params)
unfolding print_params pairs IsJoined pair_of
split_at-print_params k v _ h hv done =
    ap (split_at b'&') (print_params-last k v) ∙ split_at-last (pair_of k v) (All-pair_of k v h hv)
split_at-print_params k v _ h hv (param {c} {cs} {v = v'} {params} h' hv' fresh plain) =
    ap (split_at b'&') (print_params-next k v (c ∷ cs) v' params)
    ∙ split_at-part (pair_of k v) (print_params ((c ∷ cs, v') ∷ params)) (All-pair_of k v h hv)
    ∙ ap (◌∷◌ (pair_of k v)) (split_at-print_params (c ∷ cs) v' params h' hv' plain)

or_else-none : (o : Option Text) → or_else o none ≡ o
unfolding or_else
or_else-none none = refl
or_else-none (some a) = refl

get-parse_query_params-empty : (j : Text) → get j (parse_query_params (print_params [])) ≡ none
unfolding parse_query_params get print_params put_pairs put_pair put_param split_at
get-parse_query_params-empty j = refl

-- A printed query is read as the parameters that it was printed from, when their keys are visible
-- ASCII characters without "&" and "=", none of them twice, and their values are ASCII.
pub get-parse_query_params :
    (params : Params) (j : Text)
    → IsPlain params
    → get j (parse_query_params (print_params params)) ≡ get j params
unfolding parse_query_params get
get-parse_query_params _ j done = get-parse_query_params-empty j
get-parse_query_params _ j (param {c} {cs} {v} {params} h hv fresh plain) =
    ap (λ parts. get j (put_pairs parts [])) (split_at-print_params (c ∷ cs) v params h hv plain)
    ∙ get-put_pairs ((c ∷ cs, v) ∷ params) [] j (param h hv fresh plain)
    ∙ or_else-none (get j ((c ∷ cs, v) ∷ params))
