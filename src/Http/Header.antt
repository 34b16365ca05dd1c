-- ===== src/Http/Header.antt =====
-- The functions of src/http.rs on a message that has been read.
pub mod Laws
use liberdus_proxy.Prelude.{
  ℕ, ◌+◌, Bool, true, false, ◌&&◌, ◌||◌, Option, none, some, List, [], ◌∷◌, ◌++◌, map, Text, codes,
  length, take, drop, is_empty, leb, text_beq, ◌==◌, if◌then◌else◌,
}
use liberdus_proxy.Str.Utf8.{is_utf8}
use liberdus_proxy.Str.Find.{starts_with, strip_prefix, find}
use liberdus_proxy.Str.Lines.{lines, join_crlf}
use liberdus_proxy.Str.Trim.{trim}
use liberdus_proxy.Str.Number.{parse_usize}

-- "\r\n" and "\r\n\r\n"
abbrev pub crlf : Text
crlf = 13 ∷ 10 ∷ []

abbrev pub blank_line : Text
blank_line = 13 ∷ 10 ∷ 13 ∷ 10 ∷ []

-- `to_lowercase` on ASCII. The code only looks for a prefix of ASCII letters in the result, and no
-- other character has one of those prefixes' letters as its whole lower case.
abbrev pub ascii_lower : ℕ → ℕ
ascii_lower c = if leb b'A' c && leb c b'Z' then c + 32 else c

parse_value : Option Text → Option ℕ
parse_value none = none
parse_value (some value) = parse_usize (trim value)

-- The first line with the prefix decides, also where its value does not parse.
content_length_in : List Text → Option ℕ
content_length_in [] = none
content_length_in (line ∷ rest) =
    let later = content_length_in rest in
    if starts_with (map ascii_lower line) (codes "content-length:")
    then parse_value (strip_prefix (map ascii_lower line) (codes "content-length:"))
    else later

unfoldable pub parse_content_length : Text → Option ℕ
unfolding parse_value content_length_in
parse_content_length headers = if is_utf8 headers then content_length_in (lines headers) else none

-- The first line with the prefix is replaced, or the line is added at the end.
unfoldable pub put_line : Text → Text → List Text → List Text
put_line prefix line [] = line ∷ []
put_line prefix line (header ∷ headers) =
    let rest = put_line prefix line headers in
    if starts_with header prefix then line ∷ headers else header ∷ rest

-- `format!("{}: {}", key, value)`
abbrev pub header_line : Text → Text → Text
header_line key value = key ++ (codes ": " ++ value)

set_header_at : Text → Text → Text → Option ℕ → Text
set_header_at buffer key value none = buffer
set_header_at buffer key value (some headers_end) =
    join_crlf
      (put_line (key ++ codes ":") (header_line key value) (lines (take headers_end buffer)))
    ++ drop headers_end buffer

unfoldable pub set_http_header : Text → Text → Text → Text
unfolding set_header_at
set_http_header buffer key value =
    if is_utf8 buffer then set_header_at buffer key value (find buffer blank_line) else buffer

body_at : Text → Option ℕ → Text
body_at buffer none = []
body_at buffer (some i) = drop (i + 4) buffer

head_at : Text → Option ℕ → Text
head_at buffer none = []
head_at buffer (some i) = take (i + 4) buffer

unfoldable pub extract_body : Text → Text
unfolding body_at
extract_body buffer = if is_utf8 buffer then body_at buffer (find buffer blank_line) else []

unfoldable pub split_head_body : Text → Text × Text
unfolding head_at body_at
split_head_body buffer =
    if is_utf8 buffer
    then (head_at buffer (find buffer blank_line), body_at buffer (find buffer blank_line))
    else ([], [])

unfoldable pub join_head_body : Text → Text → Text
join_head_body head body = head ++ body
