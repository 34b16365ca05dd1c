-- ===== src/Http/Peer/Binary.antt =====
-- A request that is not UTF-8.
use liberdus_proxy.Prelude.{◌≡◌, refl, false, Text, codes}
use liberdus_proxy.Str.Utf8.{is_utf8}
use liberdus_proxy.Str.Find.{find}
use liberdus_proxy.Http.Header.{split_head_body, join_head_body}
use liberdus_proxy.Http.Strip.{
  strip_route_root, parse_request_line, print_request_line, strip_path, strip_line,
}
use liberdus_proxy.Http.Peer.{strip_request}

-- Of a request that is not UTF-8, a binary body included, the notifier and the collector are sent
-- two spaces and nothing else.
pub strip_request-not_utf8 :
    (request_buffer : Text)
    → is_utf8 request_buffer ≡ false
    → strip_request request_buffer ≡ codes "  "
unfolding strip_request split_head_body join_head_body strip_route_root parse_request_line
    print_request_line strip_path strip_line is_utf8 find
strip_request-not_utf8 request_buffer h = rw h refl
