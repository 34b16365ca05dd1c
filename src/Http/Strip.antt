-- ===== src/Http/Strip.antt =====
-- `strip_route_root` of src/http.rs: the request line loses "/collector" or "/notifier".
pub mod Unchanged
use liberdus_proxy.Prelude.{
  ℕ, Bool, Option, none, some, List, [], ◌∷◌, ◌++◌, Text, codes, is_empty, if◌then◌else◌,
}
use liberdus_proxy.Str.Utf8.{is_utf8}
use liberdus_proxy.Str.Find.{strip_prefix, split_once}
use liberdus_proxy.Http.Header.{crlf}

-- `unwrap_or("")`
abbrev pub or_nothing : Option Text → Text
or_nothing none = []
or_nothing (some text) = text

-- METHOD, PATH and VERSION: `splitn(3, ' ')`.
pub record RequestLine : Type 0 where
  pub method : Text
  pub path : Text
  pub version : Text

abbrev pub space : Text
space = codes " "

unfoldable pub parse_request_line : Text → RequestLine
parse_request_line line =
    let first = split_once line space in
    let second = split_once (or_nothing (first.1)) space in
    record { method = first.0; path = second.0; version = or_nothing (second.1) }

unfoldable pub print_request_line : RequestLine → Text
print_request_line l = l.method ++ (space ++ (l.path ++ (space ++ l.version)))

abbrev pub or_slash : Text → Text
or_slash stripped = if is_empty stripped then codes "/" else stripped

unfoldable pub strip_path : Text → Text
strip_path path = elim (strip_prefix path (codes "/collector")) [
  | some stripped ↦ or_slash stripped
  | none ↦ elim (strip_prefix path (codes "/notifier")) [
    | some stripped ↦ or_slash stripped
    | none ↦ path
  ]
]

unfoldable pub strip_line : RequestLine → RequestLine
unfolding strip_path
strip_line l = record l { path = strip_path l.path }

-- The rest of the header follows the line, behind a line break, unless it is empty.
abbrev pub with_rest : Text → Text → Text
with_rest line [] = line
with_rest line (b ∷ bs) = line ++ (crlf ++ (b ∷ bs))

unfoldable pub strip_route_root : Text → Text
unfolding parse_request_line print_request_line strip_line
strip_route_root header_bytes =
    let parts = split_once header_bytes crlf in
    if is_utf8 header_bytes
    then with_rest (print_request_line (strip_line (parse_request_line (parts.0))))
        (or_nothing (parts.1))
    else header_bytes
