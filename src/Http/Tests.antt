-- ===== src/Http/Tests.antt =====
-- The theorems on messages at small ones.
use liberdus_proxy.Prelude.{◌≡◌, refl, List, [], ◌∷◌, ◌++◌, arith, Text, codes, ok}
use liberdus_proxy.Str.Find.{find}
use liberdus_proxy.Str.Utf8.{is_utf8}
use liberdus_proxy.Str.Lines.{lines}
use liberdus_proxy.Str.Number.{parse_usize}
use liberdus_proxy.Str.Trim.{trim}
use liberdus_proxy.Http.Header.{blank_line, crlf, parse_content_length}
use liberdus_proxy.Http.Collect.{Read, chunk, collect_http}
use liberdus_proxy.Http.Collect.Whole.{collect_afresh, collect_http-eq-afresh}
use liberdus_proxy.Http.Collect.Message.{IsMessage, concat, reads_of, collect_http-message}

abbrev message_start : Text
message_start = codes "POST / HTTP/1.1" ++ crlf ++ codes "Content-Length: 2" ++ crlf ++ (13 ∷ [])

abbrev message_end : Text
message_end = 10 ∷ codes "ok"

abbrev next_message : List Read
next_message = chunk (codes "GET") ∷ []

abbrev get_request : Text
get_request = codes "GET /other/path HTTP/1.1" ++ crlf ++ codes "Host: example.com" ++ blank_line

collect_http-eq-afresh_example :
    collect_http (chunk message_start ∷ chunk message_end ∷ next_message)
    ≡ collect_afresh (chunk message_start ∷ chunk message_end ∷ next_message) []
collect_http-eq-afresh_example =
    collect_http-eq-afresh (chunk message_start ∷ chunk message_end ∷ next_message)

IsMessage-example : IsMessage (concat (message_start ∷ message_end ∷ []))
unfolding find parse_content_length is_utf8 lines parse_usize trim
IsMessage-example = record {
  headers_end = 34;
  content_length = 2;
  found = refl;
  parsed = refl;
  exact = omega arith;
  fits = omega arith;
}

collect_http-message_example :
    collect_http (reads_of (message_start ∷ message_end ∷ []) next_message) ≡ record {
      result = ok tt;
      buffer = concat (message_start ∷ message_end ∷ []);
      rest = next_message;
    }
collect_http-message_example =
    collect_http-message message_start (message_end ∷ []) next_message
      (omega arith, (omega arith, tt)) IsMessage-example
