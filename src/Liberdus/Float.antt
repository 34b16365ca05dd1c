-- ===== src/Liberdus/Float.antt =====
-- What src/liberdus.rs uses of `f64` and of the random generator of the `rand` crate: interfaces,
-- with the laws that the code relies on apart from the operations.
use liberdus_proxy.Prelude.{ℕ, ◌<◌, ◌≡◌, Option, some, Ordering}

pub record Floats (F : Type 0) : Type 0 where
  pub float_zero : F
  pub float_one : F
  pub add : F → F → F
  pub sub : F → F → F
  pub div : F → F → F
  pub of_nat : ℕ → F
  pub partial_cmp : F → F → Option Ordering

-- `PartialOrd`: a < b exactly when b > a.
pub record FloatLaws {F : Type 0} (o : Floats F) : Type 0 where
  pub cmp_swap :
      (a b : F) → o.partial_cmp a b ≡ some Ordering.lt → o.partial_cmp b a ≡ some Ordering.gt

-- The draws of one call: `gen_range(0..n)` and `gen_range(0.0..t)`.
pub record Rng (F : Type 0) : Type 0 where
  pub gen_index : ℕ → ℕ
  pub gen_float : F → F

-- A draw from a range that is not empty is below its end.
pub record RngLaws {F : Type 0} (o : Floats F) (rng : Rng F) : Type 0 where
  pub gen_index-lt : (n : ℕ) → 0 < n → rng.gen_index n < n
  pub gen_float-lt :
      (t : F)
      → o.partial_cmp o.float_zero t ≡ some Ordering.lt
      → o.partial_cmp (rng.gen_float t) t ≡ some Ordering.lt
