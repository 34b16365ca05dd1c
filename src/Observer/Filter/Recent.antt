-- ===== src/Observer/Filter/Recent.antt =====
-- What the filter leaves of an observer's response.
use liberdus_proxy.Prelude.{
  Bool-cases, inl, inr, true, false, Option, none, some, List, [], ◌∷◌, ◌≡◌, refl, ◌∙◌, Text, codes,
  text_beq, length, if◌then◌else◌, ok,
}
use liberdus_proxy.Json.{
  ℤ, is_at_most, Value, Values, Fields, number, pos_int, array, object, from_list, to_list,
  get_field, insert_field, Serde,
}
use liberdus_proxy.Json.Laws.{get_field-same, get_field-other}
use liberdus_proxy.Observer.Filter.{
  tx_timestamp, is_kept, keep_recent, with_transactions, transactions_in, set_ok, filter_value,
  filter_parsed, filter_transaction_response_by_timestamp,
}

-- The transactions from the cutoff on, and those without a timestamp, in their order.
pub data Recent (cutoff : ℤ) : List Value → List Value → Type 0 where
  done : Recent cutoff [] []
  keeps :
      {tx : Value} {txs kept : List Value} (ts : ℤ)
      → tx_timestamp tx ≡ some ts
      → is_at_most cutoff ts ≡ true
      → Recent cutoff txs kept
      → Recent cutoff (tx ∷ txs) (tx ∷ kept)
  keeps_undated :
      {tx : Value} {txs kept : List Value}
      → tx_timestamp tx ≡ none
      → Recent cutoff txs kept
      → Recent cutoff (tx ∷ txs) (tx ∷ kept)
  drops :
      {tx : Value} {txs kept : List Value} (ts : ℤ)
      → tx_timestamp tx ≡ some ts
      → is_at_most cutoff ts ≡ false
      → Recent cutoff txs kept
      → Recent cutoff (tx ∷ txs) kept

Recent-step :
    (cutoff : ℤ) (tx : Value) (txs kept : List Value) (ts : Option ℤ)
    → tx_timestamp tx ≡ ts
    → Recent cutoff txs kept
    → Recent cutoff
        (tx ∷ txs)
        (if (elim ts [ none ↦ true | some t ↦ is_at_most cutoff t ]) then tx ∷ kept else kept)
Recent-step cutoff tx txs kept none e r = keeps_undated e r
Recent-step cutoff tx txs kept (some t) e r = elim (Bool-cases (is_at_most cutoff t)) [
  | inl h ↦ rw h (keeps t e h r)
  | inr h ↦ rw h (drops t e h r)
]

Recent-keep_recent : (cutoff : ℤ) (txs : List Value) → Recent cutoff txs (keep_recent cutoff txs)
unfolding keep_recent is_kept
Recent-keep_recent cutoff [] = done
Recent-keep_recent cutoff (tx ∷ txs) =
    Recent-step cutoff tx txs (keep_recent cutoff txs) (tx_timestamp tx) refl
      (Recent-keep_recent cutoff txs)

-- Fields of the object under "Ok", before and after.
pub record Filtered (cutoff : ℤ) (txs : List Value) (before after : Fields) : Type 0 where
  pub kept : List Value
  pub recent : Recent cutoff txs kept
  pub transactions : get_field (codes "transactions") after ≡ some (array (from_list kept))
  pub total : get_field (codes "totalTranactions") after ≡ some (number (pos_int (length kept)))
  pub pages : get_field (codes "totalPages") after ≡ some (number (pos_int 1))
  pub others :
      (k : Text)
      → text_beq (codes "transactions") k ≡ false
      → text_beq (codes "totalTranactions") k ≡ false
      → text_beq (codes "totalPages") k ≡ false
      → get_field k after ≡ get_field k before

Filtered-with_transactions :
    (cutoff : ℤ) (txs : List Value) (fields : Fields)
    → Filtered cutoff txs fields (with_transactions (keep_recent cutoff txs) fields)
unfolding with_transactions
Filtered-with_transactions cutoff txs fields = record {
  kept = keep_recent cutoff txs;
  recent = Recent-keep_recent cutoff txs;
  transactions =
      get_field-other (codes "totalPages") (codes "transactions") _ _ refl
      ∙ get_field-other (codes "totalTranactions") (codes "transactions") _ _ refl
      ∙ get_field-same (codes "transactions") _ fields;
  total =
      get_field-other (codes "totalPages") (codes "totalTranactions") _ _ refl
      ∙ get_field-same (codes "totalTranactions") _ _;
  pages = get_field-same (codes "totalPages") (number (pos_int 1)) _;
  others = λ k h₁ h₂ h₃.
      get_field-other (codes "totalPages") k (number (pos_int 1)) _ h₃
      ∙ get_field-other (codes "totalTranactions") k _ _ h₂
      ∙ get_field-other (codes "transactions") k _ fields h₁;
}

transactions_in-object :
    (outer fields : Fields) (txs : Values)
    → get_field (codes "Ok") outer ≡ some (object fields)
    → get_field (codes "transactions") fields ≡ some (array txs)
    → transactions_in (object outer) ≡ some (fields, to_list txs)
unfolding transactions_in
transactions_in-object outer fields txs there listed = rw (there, listed, transactions_in) refl

-- A response whose "Ok" is an object with a list of transactions is printed again with the recent
-- ones and those without a timestamp, in their order, with their number as the total and one page;
-- all other fields, in "Ok" and beside it, are as they were.
pub filter-Filtered :
    (serde : Serde) (raw_body : Text) (since_ms : ℤ) (outer fields : Fields) (txs : Values)
    → serde.from_slice raw_body ≡ ok (object outer)
    → get_field (codes "Ok") outer ≡ some (object fields)
    → get_field (codes "transactions") fields ≡ some (array txs)
    → (outer' : Fields) × (fields' : Fields) × (filter_transaction_response_by_timestamp serde
          raw_body since_ms
        ≡ ok (serde.to_vec (object outer')))
      × (get_field (codes "Ok") outer' ≡ some (object fields'))
      × ((k : Text) → text_beq (codes "Ok") k ≡ false → get_field k outer' ≡ get_field k outer)
      × Filtered since_ms (to_list txs) fields fields'
unfolding filter_transaction_response_by_timestamp filter_parsed filter_value set_ok
filter-Filtered serde raw_body since_ms outer fields txs parsed there listed =
    let fields' : Fields = with_transactions (keep_recent since_ms (to_list txs)) fields in
    (
      insert_field (codes "Ok") (object fields') outer,
      fields',
      rw (parsed, transactions_in-object outer fields txs there listed) refl,
      get_field-same (codes "Ok") (object fields') outer,
      (λ k h. get_field-other (codes "Ok") k (object fields') outer h),
      Filtered-with_transactions since_ms (to_list txs) fields,
    )
