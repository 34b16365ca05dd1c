-- ===== src/Liberdus/Sound.antt =====
-- What the choice of a node needs: no recorded trip time above the longest timeout, so that no bias
-- and no weight is below 0.0. `send` does not ensure it, since reading a response has no timeout.
pub mod Biases
pub mod Laws
pub mod Steps
pub mod Requests
pub mod Samples
use liberdus_proxy.Prelude.{ℕ, ◌≤◌, ◌<◌, ◌≡◌, ◌⊎◌, true, some, Text, All, Ordering}
use liberdus_proxy.Liberdus.Float.{Floats}
use liberdus_proxy.Liberdus.State.{Liberdus}
use liberdus_proxy.Liberdus.Select.{last_or}
use liberdus_proxy.Liberdus.Select.Serves.{IsWellFormed}

abbrev pub IsAtMost : {F : Type 0} → Floats F → F → F → Type 0
IsAtMost o a b = (o.partial_cmp a b ≡ some Ordering.lt) ⊎ (o.partial_cmp a b ≡ some Ordering.eq)

abbrev pub IsNonneg : {F : Type 0} → Floats F → F → Type 0
IsNonneg o a = IsAtMost o o.float_zero a

-- Of IEEE 754: 0.0 - which is exact to take away - and 1.0 are in order, sums of what is not below
-- 0.0 are not, and rounding keeps a quotient of a number by a greater one at 1.0 or below.
pub record SignLaws {F : Type 0} (o : Floats F) : Type 0 where
  pub zero_nonneg : IsNonneg o o.float_zero
  pub one_nonneg : IsNonneg o o.float_one
  pub add_nonneg : (a b : F) → IsNonneg o a → IsNonneg o b → IsNonneg o (o.add a b)
  pub sub_zero : (a : F) → o.sub a o.float_zero ≡ a
  pub sub_nonneg : (a : F) → IsAtMost o a o.float_one → IsNonneg o (o.sub o.float_one a)
  pub div_at_most_one :
      (n m : ℕ) → n ≤ m → 0 < m → IsAtMost o (o.div (o.of_nat n) (o.of_nat m)) o.float_one

-- A trip time of at most `max_timeout`.
abbrev pub IsTimely : ℕ → Text × ℕ → Type 0
IsTimely max_timeout trip = trip.1 ≤ max_timeout

pub record IsSound {F : Type 0} (o : Floats F) (max_timeout : ℕ) (s : Liberdus F) : Type 0 where
  pub well_formed : IsWellFormed s
  pub timeout_pos : 0 < max_timeout
  pub timeout : s.config.max_http_timeout_ms ≡ max_timeout
  pub recorded : All (IsTimely max_timeout) s.trip_ms
  pub spawned : All (IsTimely max_timeout) s.pending
  pub weights :
      s.list_prepared ≡ true → IsNonneg o (last_or o.float_one s.load_distribution_commulative_bias)
