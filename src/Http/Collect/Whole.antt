-- ===== src/Http/Collect/Whole.antt =====
-- The loop with its flags, and a loop that looks at the whole buffer after every chunk.
use liberdus_proxy.Prelude.{
  ℕ, ◌+◌, ◌%◌, ◌^◌, ◌≡◌, refl, ap, Bool, true, false, Option, none, some, List, [], ◌∷◌, ◌++◌,
  arith, Text, codes, length, take, ltb, leb, if◌then◌else◌, ok, err, Option-cases, Bool-cases, inl,
  inr,
}
use liberdus_proxy.Str.Find.{find}
use liberdus_proxy.Str.Find.Laws.{find-le, find-append, take-append-le}
use liberdus_proxy.Http.Header.{blank_line, parse_content_length}
use liberdus_proxy.Http.Collect.{
  Read, chunk, broken, Next, whole, too_large, more, after_chunk, Collected, at_end, collect_loop,
  collect_http, max_payload_size, invalid_data,
}

-- The whole message is in the buffer: its headers, and as many bytes after them as they say.
abbrev pub is_whole_at : Text → Option ℕ → Bool
is_whole_at buffer none = false
is_whole_at buffer (some i) = elim (parse_content_length (take (i + 4) buffer)) [
  | none ↦ true
  | some n ↦ leb ((i + 4 + n) % 2 ^ 64) (length buffer)
]

abbrev pub is_whole : Text → Bool
is_whole buffer = is_whole_at buffer (find buffer blank_line)

abbrev pub has_headers : Option ℕ → Bool
has_headers none = false
has_headers (some i) = true

-- The reference: with nothing remembered, each round looks at the whole buffer.
unfoldable pub collect_afresh : List Read → Text → Collected
unfolding at_end
collect_afresh [] buffer = at_end buffer (has_headers (find buffer blank_line))
collect_afresh (broken e ∷ reads) buffer = record { result = err e; buffer = buffer; rest = reads }
collect_afresh (chunk [] ∷ reads) buffer = at_end buffer (has_headers (find buffer blank_line))
collect_afresh (chunk (b ∷ bs) ∷ reads) buffer = elim (is_whole (buffer ++ (b ∷ bs))) [
  | true ↦ record { result = ok tt; buffer = buffer ++ (b ∷ bs); rest = reads }
  | false ↦ elim (ltb max_payload_size (length (buffer ++ (b ∷ bs)))) [
    | true ↦ record {
      result = err (invalid_data (codes "Payload too large"));
      buffer = buffer ++ (b ∷ bs);
      rest = reads;
    }
    | false ↦ collect_afresh reads (buffer ++ (b ∷ bs))
  ]
]

-- What the flags of the loop say of its buffer.
data Remembers (buffer : Text) : Bool → Option ℕ → Type 0 where
  unread : find buffer blank_line ≡ none → Remembers buffer false none
  was_read :
      (i n : ℕ)
      → find buffer blank_line ≡ some i
      → parse_content_length (take (i + 4) buffer) ≡ some n
      → Remembers buffer true (some n)

abbrev length_at : Text → Option ℕ → Option ℕ
length_at buffer none = none
length_at buffer (some i) = parse_content_length (take (i + 4) buffer)

-- The flags that a buffer gives by itself.
abbrev judge : Text → Next
judge buffer =
    if is_whole buffer
    then whole
    else if ltb max_payload_size (length buffer)
    then too_large
    else more (has_headers (find buffer blank_line)) (length_at buffer (find buffer blank_line))

Remembers-judge :
    (buffer : Text)
    → is_whole buffer ≡ false
    → Remembers buffer
        (has_headers (find buffer blank_line))
        (length_at buffer (find buffer blank_line))
Remembers-judge buffer h = elim (Option-cases (find buffer blank_line)) [
  | inl e ↦ rw e (unread e)
  | inr (i, e) ↦ elim (Option-cases (parse_content_length (take (i + 4) buffer))) [
    | inl n ↦ absurd (ground arith)
    | inr (n, p) ↦ rw (e, p) (was_read i n e p)
  ]
]

after_chunk-judge :
    (buffer extra : Text) (headers_read : Bool) (content_length : Option ℕ)
    → Remembers buffer headers_read content_length
    → after_chunk (buffer ++ extra) headers_read content_length ≡ judge (buffer ++ extra)
unfolding after_chunk
after_chunk-judge buffer extra headers_read content_length (unread e) =
    elim (Option-cases (find (buffer ++ extra) blank_line)) [
      | inl a ↦ ground arith
      | inr (i, a) ↦ ground arith
    ]
after_chunk-judge buffer extra headers_read content_length (was_read i n e p) = ground (
  arith,
  find-append buffer extra blank_line i e,
  find-le buffer blank_line i e,
  take-append-le (i + 4) buffer extra,
)

has_headers-eq :
    (buffer : Text) (headers_read : Bool) (content_length : Option ℕ)
    → Remembers buffer headers_read content_length
    → headers_read ≡ has_headers (find buffer blank_line)
has_headers-eq buffer headers_read content_length (unread e) = ground arith
has_headers-eq buffer headers_read content_length (was_read i n e p) = ground arith

collect_loop-afresh :
    (reads : List Read) (buffer : Text) (headers_read : Bool) (content_length : Option ℕ)
    → Remembers buffer headers_read content_length
    → collect_loop reads buffer headers_read content_length ≡ collect_afresh reads buffer
unfolding collect_loop collect_afresh
collect_loop-afresh [] buffer hr cl r = ap (at_end buffer) (has_headers-eq buffer hr cl r)
collect_loop-afresh (broken e ∷ reads) buffer hr cl r = refl
collect_loop-afresh (chunk [] ∷ reads) buffer hr cl r =
    ap (at_end buffer) (has_headers-eq buffer hr cl r)
collect_loop-afresh (chunk (b ∷ bs) ∷ reads) buffer hr cl r =
    let seen = buffer ++ (b ∷ bs) in
    elim (Bool-cases (is_whole seen)) [
      | inl done ↦ ground (arith, after_chunk-judge buffer (b ∷ bs) hr cl r)
      | inr going ↦ ground (
        arith,
        after_chunk-judge buffer (b ∷ bs) hr cl r,
        collect_loop-afresh reads seen (has_headers (find seen blank_line))
            (length_at seen (find seen blank_line)) (Remembers-judge seen going),
      )
    ]

-- The loop's remembered flags change nothing: on every stream `collect_http` gives the result, the
-- buffer and the rest that the reference gives.
pub collect_http-eq-afresh : (reads : List Read) → collect_http reads ≡ collect_afresh reads []
unfolding collect_http find
collect_http-eq-afresh reads = collect_loop-afresh reads [] false none (unread refl)
