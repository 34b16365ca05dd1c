-- ===== src/Observer/Filter.antt =====
-- `filter_transaction_response_by_timestamp` of src/observer_gateway.rs.
pub mod Recent
use liberdus_proxy.Prelude.{
  ℕ, Bool, true, Option, none, some, List, [], ◌∷◌, Text, codes, length, if◌then◌else◌, Result, ok,
  err,
}
use liberdus_proxy.Json.{
  ℤ, is_at_most, as_i64_wrapping, Value, Fields, number, pos_int, array, object, from_list, to_list,
  get, as_array, as_i64, as_u64, get_field, insert_field, Serde,
}

-- `n.as_i64().or_else(|| n.as_u64().map(|u| u as i64))`
timestamp_of : Value → Option ℤ
timestamp_of n = elim (as_i64 n) [
  | some i ↦ some i
  | none ↦ elim (as_u64 n) [ none ↦ none | some u ↦ some (as_i64_wrapping u) ]
]

unfoldable pub tx_timestamp : Value → Option ℤ
unfolding timestamp_of
tx_timestamp tx = elim (get (codes "txTimestamp") tx) [ none ↦ none | some n ↦ timestamp_of n ]

unfoldable pub is_kept : ℤ → Value → Bool
unfolding tx_timestamp
is_kept cutoff tx = elim (tx_timestamp tx) [ none ↦ true | some ts ↦ is_at_most cutoff ts ]

unfoldable pub keep_recent : ℤ → List Value → List Value
unfolding is_kept
keep_recent cutoff [] = []
keep_recent cutoff (tx ∷ txs) =
    let rest = keep_recent cutoff txs in if is_kept cutoff tx then tx ∷ rest else rest

unfoldable pub with_transactions : List Value → Fields → Fields
with_transactions filtered fields = insert_field (codes "totalPages") (number (pos_int 1)) (
    insert_field (codes "totalTranactions") (number (pos_int (length filtered)))
      (insert_field (codes "transactions") (array (from_list filtered)) fields))

-- `v.get_mut("Ok")…`: the fields of the object under "Ok", and the list in them.
unfoldable pub transactions_in : Value → Option (Fields × List Value)
transactions_in v = elim (get (codes "Ok") v) [
  | some (object fields) ↦ elim (get_field (codes "transactions") fields) [
    | some (array txs) ↦ some (fields, to_list txs)
    | _ ↦ none
  ]
  | _ ↦ none
]

set_ok : Value → Fields → Value
set_ok (object outer) fields = object (insert_field (codes "Ok") (object fields) outer)
set_ok v fields = v

filter_value : Serde → Text → ℤ → Value → Option (Fields × List Value) → Text
filter_value serde raw_body since_ms v none = raw_body
filter_value serde raw_body since_ms v (some (fields, txs)) =
    serde.to_vec (set_ok v (with_transactions (keep_recent since_ms txs) fields))

filter_parsed : Serde → Text → ℤ → Result Text Value → Result Text Text
filter_parsed serde raw_body since_ms (err e) = err e
filter_parsed serde raw_body since_ms (ok v) =
    ok (filter_value serde raw_body since_ms v (transactions_in v))

unfoldable pub filter_transaction_response_by_timestamp : Serde → Text → ℤ → Result Text Text
unfolding filter_parsed filter_value set_ok
filter_transaction_response_by_timestamp serde raw_body since_ms =
    filter_parsed serde raw_body since_ms (serde.from_slice raw_body)
