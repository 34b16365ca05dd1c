-- ===== src/Http/Collect/Message.antt =====
-- What a collected message is, however the network cut it up.
use mathlib.Core.List.{append_assoc, append-nil}
use mathlib.Core.Path.{subst}
use liberdus_proxy.Prelude.{
  ℕ, ◌+◌, ◌≤◌, ◌<◌, ◌≡◌, sym, ap, ◌∙◌, true, false, some, List, [], ◌∷◌, ◌++◌, arith, Text, length,
  length-append, take, ok, Option-cases, inl, inr,
}
use liberdus_proxy.Str.Find.{find}
use liberdus_proxy.Str.Find.Laws.{find-le, find-append, take-append-le}
use liberdus_proxy.Http.Header.{blank_line, parse_content_length}
use liberdus_proxy.Http.Collect.{Read, chunk, Collected, collect_http, max_payload_size}
use liberdus_proxy.Http.Collect.Whole.{is_whole, collect_afresh, collect_http-eq-afresh}

-- A message with a content length, and exactly so many bytes after its headers.
pub record IsMessage (msg : Text) : Type 0 where
  pub headers_end : ℕ
  pub content_length : ℕ
  pub found : find msg blank_line ≡ some headers_end
  pub parsed : parse_content_length (take (headers_end + 4) msg) ≡ some content_length
  pub exact : length msg ≡ headers_end + 4 + content_length
  pub fits : length msg ≤ max_payload_size

is_whole-message : (msg : Text) → IsMessage msg → is_whole msg ≡ true
is_whole-message msg m = ground arith

-- No shorter part is whole.
is_whole-part :
    (part rest : Text) → 0 < length rest → IsMessage (part ++ rest) → is_whole part ≡ false
is_whole-part part rest pos m = elim (Option-cases (find part blank_line)) [
  | inl n ↦ rw n
  | inr (i, f) ↦ ground (
    arith,
    find-append part rest blank_line i f,
    find-le part blank_line i f,
    take-append-le (i + 4) part rest,
    length-append part rest,
  )
]

abbrev pub concat : List Text → Text
concat [] = []
concat (c ∷ cs) = c ++ concat cs

-- A read of each chunk.
abbrev pub reads_of : List Text → List Read → List Read
reads_of [] rest = rest
reads_of (c ∷ cs) rest = chunk c ∷ reads_of cs rest

abbrev pub AllNonempty : List Text → Type 0
AllNonempty [] = Unit
AllNonempty (c ∷ cs) = (0 < length c) × AllNonempty cs

abbrev whole_message : Text → List Read → Collected
whole_message msg rest = record { result = ok tt; buffer = msg; rest = rest }

last_chunk :
    (b : ℕ) (bs seen : Text) (rest : List Read)
    → IsMessage (seen ++ (b ∷ bs))
    → collect_afresh (chunk (b ∷ bs) ∷ rest) seen ≡ whole_message (seen ++ (b ∷ bs)) rest
unfolding collect_afresh
last_chunk b bs seen rest m = ground (arith, is_whole-message (seen ++ (b ∷ bs)) m)

earlier_chunk :
    (b : ℕ) (bs seen later : Text) (reads : List Read)
    → 0 < length later
    → IsMessage ((seen ++ (b ∷ bs)) ++ later)
    → collect_afresh (chunk (b ∷ bs) ∷ reads) seen ≡ collect_afresh reads (seen ++ (b ∷ bs))
unfolding collect_afresh
earlier_chunk b bs seen later reads pos m =
    ground
      (arith, is_whole-part (seen ++ (b ∷ bs)) later pos m, length-append (seen ++ (b ∷ bs)) later)

nonempty-concat : (d : Text) (ds : List Text) → AllNonempty (d ∷ ds) → 0 < length (concat (d ∷ ds))
nonempty-concat [] ds h = absurd (omega (arith, h.0))
nonempty-concat (b ∷ bs) ds h = ground arith

collect_afresh-chunks :
    (c : Text) (cs : List Text) (seen : Text) (rest : List Read)
    → AllNonempty (c ∷ cs)
    → IsMessage (seen ++ concat (c ∷ cs))
    → collect_afresh (reads_of (c ∷ cs) rest) seen ≡ whole_message (seen ++ concat (c ∷ cs)) rest
collect_afresh-chunks [] cs seen rest h m = absurd (omega (arith, h.0))
collect_afresh-chunks (b ∷ bs) [] seen rest h m =
    let plain = append-nil bs in
    let at_plain = last_chunk b bs seen rest (subst (λ t. IsMessage (seen ++ (b ∷ t))) plain m) in
    at_plain ∙ ap (λ t. whole_message (seen ++ (b ∷ t)) rest) (sym plain)
collect_afresh-chunks (b ∷ bs) (d ∷ ds) seen rest h m =
    let later = concat (d ∷ ds) in
    let split = append_assoc seen (b ∷ bs) later in
    let m' = subst IsMessage (sym split) m in
    earlier_chunk b bs seen later (reads_of (d ∷ ds) rest) (nonempty-concat d ds h.1) m'
    ∙ collect_afresh-chunks d ds (seen ++ (b ∷ bs)) rest h.1 m'
    ∙ ap (λ t. whole_message t rest) split

-- However the sender's bytes are cut into reads, the buffer ends with the whole message, and no
-- read past its last byte is taken: for every list of nonempty chunks whose concatenation has a
-- blank line, a content length and exactly that many bytes after it, within the size limit.
pub collect_http-message :
    (c : Text) (cs : List Text) (rest : List Read)
    → AllNonempty (c ∷ cs)
    → IsMessage (concat (c ∷ cs))
    → collect_http (reads_of (c ∷ cs) rest)
      ≡ record { result = ok tt; buffer = concat (c ∷ cs); rest = rest }
collect_http-message c cs rest h m =
    collect_http-eq-afresh (reads_of (c ∷ cs) rest) ∙ collect_afresh-chunks c cs [] rest h m
