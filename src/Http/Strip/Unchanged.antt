-- ===== src/Http/Strip/Unchanged.antt =====
-- Which requests `strip_route_root` passes on as they are.
use liberdus_proxy.Prelude.{
  ℕ, ◌+◌, ◌<◌, ◌≡◌, refl, ap, ◌∙◌, true, none, some, [], ◌∷◌, ◌++◌, arith, Text, codes, length,
  take, drop,
}
use liberdus_proxy.Str.Utf8.{is_utf8}
use liberdus_proxy.Str.Find.{strip_prefix, find}
use liberdus_proxy.Str.Find.Split.{find-split, split_once-find}
use liberdus_proxy.Http.Header.{crlf}
use liberdus_proxy.Http.Strip.{
  parse_request_line, print_request_line, strip_path, strip_line, strip_route_root, space,
  with_rest,
}

-- A line with two spaces is its three parts, printed again.
print_request_line-parse_request_line :
    (line : Text) (i j : ℕ)
    → find line space ≡ some i
    → find (drop (i + 1) line) space ≡ some j
    → print_request_line (parse_request_line line) ≡ line
unfolding print_request_line parse_request_line
print_request_line-parse_request_line line i j h k =
    rw (split_once-find line space i h, split_once-find (drop (i + 1) line) space j k)
      (ap (λ t. take i line ++ (space ++ t)) (find-split (drop (i + 1) line) space j k)
        ∙ find-split line space i h)

strip_path-other :
    (path : Text)
    → strip_prefix path (codes "/collector") ≡ none
    → strip_prefix path (codes "/notifier") ≡ none
    → strip_path path ≡ path
unfolding strip_path
strip_path-other path h k = rw (h, k) refl

with_rest-join : (line rest : Text) → 0 < length rest → with_rest line rest ≡ line ++ (crlf ++ rest)
with_rest-join line [] h = absurd (ground arith)
with_rest-join line (b ∷ bs) h = refl

-- A UTF-8 header goes through unchanged when its first line ends with "\r\n" and something follows,
-- the line has two spaces, and the path between them starts neither with "/collector" nor with
-- "/notifier".
pub strip_route_root-other :
    (header_bytes : Text) (e i j : ℕ)
    → is_utf8 header_bytes ≡ true
    → find header_bytes crlf ≡ some e
    → 0 < length (drop (e + 2) header_bytes)
    → find (take e header_bytes) space ≡ some i
    → find (drop (i + 1) (take e header_bytes)) space ≡ some j
    → strip_prefix ((parse_request_line (take e header_bytes)).path) (codes "/collector") ≡ none
    → strip_prefix ((parse_request_line (take e header_bytes)).path) (codes "/notifier") ≡ none
    → strip_route_root header_bytes ≡ header_bytes
unfolding strip_route_root strip_line
strip_route_root-other header_bytes e i j u f pos h k c n =
    let line = take e header_bytes in
    let path = (parse_request_line line).path in
    rw
      (
        u,
        split_once-find header_bytes crlf e f,
        strip_path-other path c n,
        print_request_line-parse_request_line line i j h k,
      )
      (with_rest-join line (drop (e + 2) header_bytes) pos ∙ find-split header_bytes crlf e f)
