-- ===== src/Json.antt =====
-- `serde_json::Value` as its documentation gives it, with the accessors that the program calls. What
-- a text parses to, and how a value is printed, is a parameter where it is used.
pub mod Laws
use liberdus_proxy.Prelude.{
  ℕ, suc, ◌+◌, ◌-◌, ◌%◌, ◌^◌, ltb, leb, Bool, true, false, Option, none, some, List, [], ◌∷◌, Text,
  text_beq, if◌then◌else◌, Result,
}

-- The whole numbers, `negsuc n` for -(n + 1).
pub data ℤ : Type 0 where
  pos negsuc : ℕ → ℤ

-- `a <= b`
unfoldable pub is_at_most : ℤ → ℤ → Bool
is_at_most (pos m) (pos n) = leb m n
is_at_most (pos m) (negsuc n) = false
is_at_most (negsuc m) (pos n) = true
is_at_most (negsuc m) (negsuc n) = leb n m

-- `u as i64`, which wraps.
unfoldable pub as_i64_wrapping : ℕ → ℤ
as_i64_wrapping u = if ltb u (2 ^ 63) then pos u else negsuc (2 ^ 64 - 1 - u)

-- A number as it was read: a `u64`, a negative `i64`, or the text of a float.
pub data Number : Type 0 where
  pos_int : ℕ → Number
  neg_int : ℕ → Number
  float : Text → Number

mutual
  pub data Value : Type 0 where
    null : Value
    bool : Bool → Value
    number : Number → Value
    string : Text → Value
    array : Values → Value
    object : Fields → Value

  pub data Values : Type 0 where
    last : Values
    item : Value → Values → Values

  pub data Fields : Type 0 where
    last_field : Fields
    field : Text → Value → Fields → Fields

abbrev pub to_list : Values → List Value
to_list last = []
to_list (item v vs) = v ∷ to_list vs

abbrev pub from_list : List Value → Values
from_list [] = last
from_list (v ∷ vs) = item v (from_list vs)

unfoldable pub get_field : Text → Fields → Option Value
get_field k last_field = none
get_field k (field j v rest) = if text_beq j k then some v else get_field k rest

unfoldable pub insert_field : Text → Value → Fields → Fields
insert_field k v last_field = field k v last_field
insert_field k v (field j w rest) =
    let after = insert_field k v rest in if text_beq j k then field j v rest else field j w after

-- `value.get(k)`
abbrev pub get : Text → Value → Option Value
get k (object fields) = get_field k fields
get k _ = none

abbrev pub as_array : Value → Option (List Value)
as_array (array vs) = some (to_list vs)
as_array _ = none

abbrev pub as_str : Value → Option Text
as_str (string s) = some s
as_str _ = none

abbrev pub as_u64 : Value → Option ℕ
as_u64 (number (pos_int n)) = some n
as_u64 _ = none

-- A `u64` only where it fits.
abbrev pub as_i64 : Value → Option ℤ
as_i64 (number (pos_int n)) = if ltb n (2 ^ 63) then some (pos n) else none
as_i64 (number (neg_int n)) = some (negsuc n)
as_i64 _ = none

-- The parser and the printer: the text of the error, or the value.
pub record Serde : Type 0 where
  pub from_slice : Text → Result Text Value
  pub to_vec : Value → Text
