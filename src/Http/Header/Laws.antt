-- ===== src/Http/Header/Laws.antt =====
-- What the functions on a message keep.
use liberdus_proxy.Prelude.{
  ℕ, ◌+◌, ◌≡◌, true, false, some, List, [], ◌∷◌, ◌++◌, arith, Text, take-append-drop, All,
  Bool-cases, inl, inr,
}
use liberdus_proxy.Str.Utf8.{is_utf8}
use liberdus_proxy.Str.Find.{starts_with, find}
use liberdus_proxy.Http.Header.{put_line, blank_line, split_head_body, join_head_body, extract_body}

-- A line without the prefix.
abbrev pub Lacks : Text → Text → Type 0
Lacks prefix header = starts_with header prefix ≡ false

-- One line has been replaced, the first with the prefix; or there was none, and one is added.
pub data IsPut (prefix line : Text) : List Text → List Text → Type 0 where
  replaced :
      (before after : List Text) (header : Text)
      → All (Lacks prefix) before
      → starts_with header prefix ≡ true
      → IsPut prefix line (before ++ (header ∷ after)) (before ++ (line ∷ after))
  added :
      (headers : List Text)
      → All (Lacks prefix) headers
      → IsPut prefix line headers (headers ++ (line ∷ []))

IsPut-cons :
    (prefix line header : Text) (headers result : List Text)
    → Lacks prefix header
    → IsPut prefix line headers result
    → IsPut prefix line (header ∷ headers) (header ∷ result)
IsPut-cons prefix line header _ _ h (replaced before after old b e) =
    replaced (header ∷ before) after old (h, b) e
IsPut-cons prefix line header _ _ h (added headers b) = added (header ∷ headers) (h, b)

-- Putting a header line replaces the first line with its prefix and keeps every other line in its
-- place; when no line has the prefix, all are kept and the new one stands last.
pub IsPut-put_line :
    (prefix line : Text) (headers : List Text)
    → IsPut prefix line headers (put_line prefix line headers)
unfolding put_line
IsPut-put_line prefix line [] = added [] tt
IsPut-put_line prefix line (header ∷ headers) = elim (Bool-cases (starts_with header prefix)) [
  | inl e ↦ rw e (replaced [] headers header tt e)
  | inr e ↦ rw e (
      IsPut-cons prefix line header headers (put_line prefix line headers) e
        (IsPut-put_line prefix line headers))
]

-- A UTF-8 message that has a blank line is its head and its body joined, and the body is what
-- `extract_body` gives.
pub join_head_body-split_head_body :
    (buffer : Text) (i : ℕ)
    → is_utf8 buffer ≡ true
    → find buffer blank_line ≡ some i
    → (join_head_body ((split_head_body buffer).0) ((split_head_body buffer).1) ≡ buffer)
      × ((split_head_body buffer).1 ≡ extract_body buffer)
unfolding join_head_body split_head_body extract_body
join_head_body-split_head_body buffer i u f =
    (ground (arith, take-append-drop (i + 4) buffer), ground arith)
