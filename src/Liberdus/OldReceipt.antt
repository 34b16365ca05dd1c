-- ===== src/Liberdus/OldReceipt.antt =====
-- `is_old_receipt_route` of src/liberdus.rs.
use liberdus_proxy.Prelude.{
  ℕ, Bool, ◌&&◌, ◌||◌, Option, none, some, List, [], ◌∷◌, Text, codes, text_beq, length, all, leb,
  ◌==◌, if◌then◌else◌,
}
use liberdus_proxy.Str.Find.{split_at}
use liberdus_proxy.Str.Number.{is_digit}

-- `trim_start_matches('/')`
unfoldable pub trim_slashes : Text → Text
trim_slashes [] = []
trim_slashes (b ∷ bs) = let rest = trim_slashes bs in if b == b'/' then rest else b ∷ bs

abbrev pub is_hexdigit : ℕ → Bool
is_hexdigit c = is_digit c || (leb b'a' c && leb c b'f') || (leb b'A' c && leb c b'F')

-- The first segment is one of two names, the second a hash, and there is no third.
unfoldable pub receipt_in : List Text → Option Text
receipt_in (seg ∷ hash ∷ []) =
    if (text_beq seg (codes "old_receipt") || text_beq seg (codes "oldreceipt"))
      && (length hash == 64 && all is_hexdigit hash)
    then some hash
    else none
receipt_in _ = none

unfoldable pub is_old_receipt_route : Text → Option Text
unfolding trim_slashes receipt_in
is_old_receipt_route route = receipt_in (split_at b'/' (trim_slashes route))
