-- ===== src/Http/Collect.antt =====
-- `collect_http` of src/http.rs: read until the message is whole.
pub mod Whole
pub mod Message
use liberdus_proxy.Prelude.{
  ℕ, suc, ◌+◌, ◌*◌, ◌%◌, ◌^◌, Bool, true, false, ◌&&◌, ◌||◌, Option, none, some, List, [], ◌∷◌,
  ◌++◌, Text, codes, length, take, is_empty, ltb, leb, if◌then◌else◌, Result, ok, err,
}
use liberdus_proxy.Str.Find.{find}
use liberdus_proxy.Http.Header.{blank_line, parse_content_length}

-- `std::io::Error`: its kind where the code reads it, and its text.
pub data IoError : Type 0 where
  unexpected_eof : Text → IoError
  invalid_data : Text → IoError
  other : Text → IoError

-- What a stream has for its reader: a read of some bytes, or an error. After the last item every
-- read returns 0 bytes, which is the end of the stream, as is a read of no bytes.
pub data Read : Type 0 where
  chunk : Text → Read
  broken : IoError → Read

-- What the loop does after a chunk.
pub data Next : Type 0 where
  whole too_large : Next
  more : Bool → Option ℕ → Next

abbrev pub max_payload_size : ℕ
max_payload_size = 1024 * 1024

position_or_zero : Option ℕ → ℕ
position_or_zero none = 0
position_or_zero (some i) = i

-- The sum is one of `usize`, which wraps where overflow is not checked, as in a release build.
is_body_read : Text → ℕ → Bool
is_body_read buffer content_length =
    leb ((position_or_zero (find buffer blank_line) + 4 + content_length) % 2 ^ 64) (length buffer)

check_size : Text → Bool → Option ℕ → Next
check_size buffer headers_read content_length =
    if ltb max_payload_size (length buffer) then too_large else more headers_read content_length

check_body : Text → Bool → Option ℕ → Next
check_body buffer headers_read none = check_size buffer headers_read none
check_body buffer headers_read (some n) =
    if is_body_read buffer n then whole else check_size buffer headers_read (some n)

-- The headers have just ended; without a content length there is no body.
on_headers : Text → Option ℕ → Next
on_headers buffer none = whole
on_headers buffer (some n) = check_body buffer true (some n)

look_for_headers : Text → Option ℕ → Option ℕ → Next
look_for_headers buffer content_length none = check_body buffer false content_length
look_for_headers buffer content_length (some headers_end) =
    on_headers buffer (parse_content_length (take (headers_end + 4) buffer))

unfoldable pub after_chunk : Text → Bool → Option ℕ → Next
unfolding position_or_zero is_body_read check_size check_body on_headers look_for_headers
after_chunk buffer true content_length = check_body buffer true content_length
after_chunk buffer false content_length =
    look_for_headers buffer content_length (find buffer blank_line)

-- The result, the buffer, and what is left on the stream.
pub record Collected : Type 0 where
  pub result : Result IoError (Unit {0})
  pub buffer : Text
  pub rest : List Read

-- The stream has ended.
at_end : Text → Bool → Collected
at_end buffer headers_read = record {
  result =
      if is_empty buffer
      then ok tt
      else if headers_read
      then ok tt
      else err (unexpected_eof (codes "Stream closed"));
  buffer = buffer;
  rest = [];
}

collect_loop : List Read → Text → Bool → Option ℕ → Collected
collect_loop [] buffer headers_read content_length = at_end buffer headers_read
collect_loop (broken e ∷ reads) buffer headers_read content_length = record {
  result = err e;
  buffer = buffer;
  rest = reads;
}
collect_loop (chunk [] ∷ reads) buffer headers_read content_length = at_end buffer headers_read
collect_loop (chunk (b ∷ bs) ∷ reads) buffer headers_read content_length =
    elim (after_chunk (buffer ++ (b ∷ bs)) headers_read content_length) [
      | whole ↦ record { result = ok tt; buffer = buffer ++ (b ∷ bs); rest = reads }
      | too_large ↦ record {
        result = err (invalid_data (codes "Payload too large"));
        buffer = buffer ++ (b ∷ bs);
        rest = reads;
      }
      | more headers_read' content_length' ↦
          collect_loop reads (buffer ++ (b ∷ bs)) headers_read' content_length'
    ]

-- The callers pass an empty buffer.
unfoldable pub collect_http : List Read → Collected
unfolding at_end collect_loop
collect_http reads = collect_loop reads [] false none
