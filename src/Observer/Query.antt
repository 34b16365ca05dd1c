-- ===== src/Observer/Query.antt =====
-- The queries of the observer's transaction requests: their parameters, what is accepted, and what
-- is sent on.
pub mod Accepted
pub mod Resent
use liberdus_proxy.Prelude.{
  ℕ, String, zero, suc, ◌+◌, ◌-◌, ◌^◌, Bool, true, false, not, ◌&&◌, ◌||◌, Option, none, some, List,
  [], ◌∷◌, ◌++◌, map, Text, codes, text_beq, text_eq, length, drop, is_empty, leb, ltb, ◌==◌,
  if◌then◌else◌, Result, ok, err,
}
use liberdus_proxy.Prelude.HashMap.{HashMap, get, insert}
use liberdus_proxy.Str.Find.{starts_with, strip_prefix, split_at, split_once}
use liberdus_proxy.Str.Trim.{trim}
use liberdus_proxy.Str.Number.{parse_digits, strip_plus, below}
use liberdus_proxy.Json.{ℤ, pos, negsuc, is_at_most}
use liberdus_proxy.Http.Header.{ascii_lower}
use liberdus_proxy.Observer.Url.{url_decode, url_encode, is_hex, is_eth_address}

-- -n
abbrev negative : ℕ → ℤ
negative zero = pos 0
negative (suc n) = negsuc n

as_pos : Option ℕ → Option ℤ
as_pos none = none
as_pos (some n) = some (pos n)

as_negative : Option ℕ → Option ℤ
as_negative none = none
as_negative (some n) = some (negative n)

-- `parse::<i64>`
unfoldable pub parse_i64 : Text → Option ℤ
unfolding as_pos as_negative
parse_i64 [] = none
parse_i64 (c ∷ cs) =
    if c == b'-'
    then as_negative (below (2 ^ 63 + 1) (parse_digits cs))
    else as_pos (below (2 ^ 63) (parse_digits (strip_plus (c ∷ cs))))

-- `splitn(2, '?')`: an absent query and an empty one are alike to all but the callers that say so.
abbrev pub query_of : Text → Text
query_of route_with_query = elim ((split_once route_with_query (codes "?")).1) [
  | none ↦ []
  | some query ↦ query
]

abbrev pub path_of : Text → Text
path_of route_with_query = (split_once route_with_query (codes "?")).0

abbrev pub Params : Type 0
Params = HashMap Text Text

value_of : Option Text → Text
value_of none = []
value_of (some v) = trim v

put_param : Text → Option Text → Params → Params
put_param [] v out = out
put_param (c ∷ cs) v out = insert (c ∷ cs) (url_decode (value_of v)) out

unfoldable pub put_pair : Text → Params → Params
unfolding value_of put_param
put_pair pair out =
    let kv = split_once pair (codes "=") in
    if is_empty pair then out else put_param (trim (kv.0)) (kv.1) out

unfoldable pub put_pairs : List Text → Params → Params
unfolding put_pair
put_pairs [] out = out
put_pairs (pair ∷ pairs) out = put_pairs pairs (put_pair pair out)

-- A later pair of the same key replaces the value.
unfoldable pub parse_query_params : Text → Params
unfolding put_pairs
parse_query_params query = put_pairs (split_at b'&' query) []

-- A parameter that is there must pass the test.
check : Params → String → (Text → Bool) → String → Result Text (Unit {0}) → Result Text (Unit {0})
check params key is_valid message rest = elim (get (codes key) params) [
  | none ↦ rest
  | some v ↦ if is_valid v then rest else err (codes message)
]

abbrev pub is_within : ℤ → ℤ → Text → Bool
is_within low high v = elim (parse_i64 v) [
  | none ↦ false
  | some i ↦ is_at_most low i && is_at_most i high
]

abbrev pub is_from : ℤ → Text → Bool
is_from low v = elim (parse_i64 v) [ none ↦ false | some i ↦ is_at_most low i ]

abbrev pub is_tx_id : Text → Bool
is_tx_id tx_id =
    (length tx_id == 64 && is_hex tx_id)
    || (length tx_id == 66 && starts_with tx_id (codes "0x") && is_hex (drop 2 tx_id))

abbrev pub is_flag : Text → Bool
is_flag u = text_beq u (codes "true") || text_beq u (codes "false")

unfoldable pub validate_params : Params → Result Text (Unit {0})
unfolding check
validate_params params = check params "page" (is_from (pos 1)) "Invalid page number" (
    check params "txId" is_tx_id "Invalid txId" (
      check params "sender" is_eth_address "Invalid ethereum address format" (
        check params "type" (is_within (pos 0) (pos 2)) "Invalid type" (
          check params "status" (is_within (pos 0) (pos 5)) "Invalid status" (
            check params "unprocessed" is_flag "Invalid unprocessed flag" (
              check params "sinceTxTimestamp" (is_from (pos 0)) "Invalid sinceTxTimestamp"
                (ok tt)))))))

unfoldable pub validate_transaction_query : Text → Result Text (Unit {0})
validate_transaction_query route_with_query =
    if is_empty (query_of route_with_query)
    then ok tt
    else validate_params (parse_query_params (query_of route_with_query))

unfoldable pub parse_since_tx_timestamp : Text → Option ℤ
parse_since_tx_timestamp route_with_query =
    if is_empty (query_of route_with_query)
    then none
    else elim (get (codes "sinceTxTimestamp") (parse_query_params (query_of route_with_query))) [
      | none ↦ none
      | some since ↦ parse_i64 since
    ]

-- `to_lowercase` on ASCII, of which the values are once they are validated.
lower : Text → Text
lower s = map ascii_lower (trim s)

strip_0x : Text → Text
strip_0x s = elim (strip_prefix s (codes "0x")) [ none ↦ s | some stripped ↦ stripped ]

change_param : Text → (Text → Text) → Params → Params
change_param key f params = elim (get key params) [
  | none ↦ params
  | some v ↦ insert key (f v) params
]

unfoldable pub normalize_params : Params → Params
unfolding lower strip_0x change_param
normalize_params params =
    change_param (codes "txId") (λ tx_id. strip_0x (lower tx_id))
      (change_param (codes "sender") lower params)

-- The parameters in the order of the map's iteration, which is not determined.
unfoldable pub print_params : Params → Text
print_params [] = []
print_params ((k, v) ∷ []) = k ++ codes "=" ++ url_encode v
print_params ((k, v) ∷ (k', v') ∷ params) =
    k ++ codes "=" ++ url_encode v ++ codes "&" ++ print_params ((k', v') ∷ params)

unfoldable pub normalize_transaction_route_params : Text → Text
normalize_transaction_route_params route_with_query =
    if is_empty (query_of route_with_query)
    then path_of route_with_query
    else path_of route_with_query
      ++ codes "?"
      ++ print_params (normalize_params (parse_query_params (query_of route_with_query)))
