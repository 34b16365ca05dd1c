-- ===== src/Liberdus/Sound/Samples.antt =====
-- Whole numbers for the floats, with the laws, and one node, for the tests.
use native.Mathlib.Nat.{div-le_of_le-mul}
use liberdus_proxy.Prelude.{
  ℕ, ◌+◌, ◌-◌, ◌/◌, ◌≤◌, compare, none, some, inl, inr, refl, arith, List, [], ◌∷◌, codes,
}
use liberdus_proxy.Liberdus.Float.{Floats, FloatLaws, Rng, RngLaws}
use liberdus_proxy.Liberdus.State.{Consensor}
use liberdus_proxy.Liberdus.Sound.{SignLaws, IsAtMost}

instance abbrev pub whole : Floats ℕ
whole = record {
  float_zero = 0;
  float_one = 1;
  add = λ x y. x + y;
  sub = λ x y. x - y;
  div = λ x y. x / y;
  of_nat = λ n. n;
  partial_cmp = λ x y. some (compare x y);
}

IsAtMost-whole : (n m : ℕ) → n ≤ m → IsAtMost whole n m
IsAtMost-whole n m h = ground arith

pub SignLaws-whole : SignLaws whole
SignLaws-whole = record {
  zero_nonneg = inr refl;
  one_nonneg = inl refl;
  add_nonneg = λ a b h h'. IsAtMost-whole 0 (a + b) (omega arith);
  sub_zero = λ a. omega arith;
  sub_nonneg = λ a h. IsAtMost-whole 0 (1 - a) (omega arith);
  div_at_most_one = λ n m h pos. IsAtMost-whole (n / m) 1 (div-le_of_le-mul m (omega arith));
}

pub FloatLaws-whole : FloatLaws whole
FloatLaws-whole = record { cmp_swap = λ a b h. ground arith }

abbrev pub zeros : Rng ℕ
zeros = record { gen_index = λ m. 0; gen_float = λ t. 0 }

pub RngLaws-zeros : RngLaws whole zeros
RngLaws-zeros = record { gen_index-lt = λ n h. h; gen_float-lt = λ t h. h }

abbrev pub one_node : List (Consensor ℕ)
one_node =
    record {
      id = codes "a";
      ip = codes "10.0.0.1";
      port = 9001;
      public_key = [];
      foundation_node = none;
      rng_bias = none;
    }
    ∷ []
