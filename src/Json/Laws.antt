-- ===== src/Json/Laws.antt =====
-- A field that is put into an object, and the order of the whole numbers.
use liberdus_proxy.Prelude.{
  false, some, ◌≡◌, refl, arith, Text, text_beq, text_beq_iff, if◌then◌else◌,
}
use liberdus_proxy.Json.{Value, Fields, last_field, field, get_field, insert_field}

pub get_field-insert_field :
    (k j : Text) (v : Value) (fields : Fields)
    → get_field j (insert_field k v fields) ≡ (if text_beq k j then some v else get_field j fields)
unfolding get_field insert_field
get_field-insert_field k j v last_field = refl
get_field-insert_field k j v (field i w rest) =
    ground (
      arith,
      text_beq_iff k j,
      text_beq_iff i k,
      text_beq_iff i j,
      get_field-insert_field k j v rest,
    )

pub get_field-same :
    (k : Text) (v : Value) (fields : Fields) → get_field k (insert_field k v fields) ≡ some v
get_field-same k v fields = rw (get_field-insert_field k k v fields, (text_beq_iff k k).1 refl) refl

pub get_field-other :
    (k j : Text) (v : Value) (fields : Fields)
    → text_beq k j ≡ false
    → get_field j (insert_field k v fields) ≡ get_field j fields
get_field-other k j v fields h = rw (get_field-insert_field k j v fields, h) refl
