-- ===== src/Observer/Query/Accepted.antt =====
-- Which parameters a transaction request may have.
use mathlib.Core.Option.{some-injective}
use liberdus_proxy.Prelude.{
  ap, ℕ, String, Bool, true, false, Bool-cases, Option-cases, Option, none, some, Text, codes,
  text_eq, text_beq_iff, if◌then◌else◌, ◌≡◌, refl, sym, ◌∙◌, ◌≤◌, ◌↔◌, ◌⊎◌, inl, inr, ◌&&◌, arith,
  Result, ok, err,
}
use liberdus_proxy.Prelude.HashMap.{get}
use liberdus_proxy.Json.{ℤ, pos, negsuc, is_at_most}
use liberdus_proxy.Observer.Url.{is_eth_address}
use liberdus_proxy.Observer.Query.{
  Params, parse_i64, check, is_within, is_from, is_tx_id, is_flag, validate_params,
}

-- The parameter is absent, or has the property.
abbrev pub Passes : Params → String → (Text → Type 0) → Type 0
Passes params key P = (v : Text) → get (codes key) params ≡ some v → P v

-- A whole number between the bounds.
abbrev pub IsNumber : ℕ → ℕ → Text → Type 0
IsNumber low high v = (n : ℕ) × (parse_i64 v ≡ some (pos n)) × (low ≤ n) × (n ≤ high)

abbrev pub IsNumberFrom : ℕ → Text → Type 0
IsNumberFrom low v = (n : ℕ) × (parse_i64 v ≡ some (pos n)) × (low ≤ n)

pub record IsAccepted (params : Params) : Type 0 where
  pub page : Passes params "page" (IsNumberFrom 1)
  pub tx_id : Passes params "txId" (λ v. is_tx_id v ≡ true)
  pub sender : Passes params "sender" (λ v. is_eth_address v ≡ true)
  pub type_of_tx : Passes params "type" (IsNumber 0 2)
  pub status : Passes params "status" (IsNumber 0 5)
  pub unprocessed : Passes params "unprocessed" (λ v. (v ≡ codes "true") ⊎ (v ≡ codes "false"))
  pub since : Passes params "sinceTxTimestamp" (IsNumberFrom 0)

check-some :
    (params : Params) (key : String) (is_valid : Text → Bool) (message : String)
    (rest : Result Text (Unit {0})) (v : Text)
    → get (codes key) params ≡ some v
    → check params key is_valid message rest ≡ (if is_valid v then rest else err (codes message))
unfolding check
check-some params key is_valid message rest v e = rw (e, check) refl

check-none :
    (params : Params) (key : String) (is_valid : Text → Bool) (message : String)
    (rest : Result Text (Unit {0}))
    → get (codes key) params ≡ none
    → check params key is_valid message rest ≡ rest
unfolding check
check-none params key is_valid message rest e = rw (e, check) refl

check-passes :
    (params : Params) (key : String) (is_valid : Text → Bool) (message : String)
    (rest : Result Text (Unit {0}))
    → check params key is_valid message rest ≡ ok tt
    → Passes params key (λ v. is_valid v ≡ true) × (rest ≡ ok tt)
check-passes params key is_valid message rest h = elim (Option-cases (get (codes key) params)) [
  | inl absent ↦ (
    λ v e. ground (arith, absent, e),
    sym (check-none params key is_valid message rest absent) ∙ h,
  )
  | inr (v, there) ↦
      let valid : (if is_valid v then rest else err (codes message)) ≡ ok tt =
        sym (check-some params key is_valid message rest v there) ∙ h in
      elim (Bool-cases (is_valid v)) [
        | inl passes ↦ (
          λ v' e. ap is_valid (some-injective v' v (sym e ∙ there)) ∙ passes,
          ground (arith, passes, valid),
        )
        | inr fails ↦ ground (arith, fails, valid)
      ]
]

check-ok :
    (params : Params) (key : String) (is_valid : Text → Bool) (message : String)
    (rest : Result Text (Unit {0}))
    → Passes params key (λ v. is_valid v ≡ true)
    → rest ≡ ok tt
    → check params key is_valid message rest ≡ ok tt
check-ok params key is_valid message rest h e = elim (Option-cases (get (codes key) params)) [
  | inl absent ↦ check-none params key is_valid message rest absent ∙ e
  | inr (v, there) ↦
      let valid : is_valid v ≡ true = h v there in
      check-some params key is_valid message rest v there ∙ rw valid e
]

number_from_iff :
    (low : ℕ) (o : Option ℤ)
    → ((elim o [ none ↦ false | some i ↦ is_at_most (pos low) i ]) ≡ true)
      ↔ ((n : ℕ) × (o ≡ some (pos n)) × (low ≤ n))
unfolding is_at_most
number_from_iff low none = (λ h. ground (arith, h), λ (n, e, h). ground (arith, e))
number_from_iff low (some (pos n)) =
    (λ h. (n, refl, ground (arith, h)), λ (m, e, h). ground (arith, e, h))
number_from_iff low (some (negsuc n)) = (λ h. ground (arith, h), λ (m, e, h). ground (arith, e))

number_within_iff :
    (low high : ℕ) (o : Option ℤ)
    → ((elim o [ none ↦ false | some i ↦ is_at_most (pos low) i && is_at_most i (pos high) ])
        ≡ true)
      ↔ ((n : ℕ) × (o ≡ some (pos n)) × (low ≤ n) × (n ≤ high))
unfolding is_at_most
number_within_iff low high none = (λ h. ground (arith, h), λ (n, e, h, h'). ground (arith, e))
number_within_iff low high (some (pos n)) = (
  λ h. (n, refl, ground (arith, h), ground (arith, h)),
  λ (m, e, h, h'). ground (arith, e, h, h'),
)
number_within_iff low high (some (negsuc n)) =
    (λ h. ground (arith, h), λ (m, e, h, h'). ground (arith, e))

is_from_iff : (low : ℕ) (v : Text) → (is_from (pos low) v ≡ true) ↔ IsNumberFrom low v
unfolding is_at_most
is_from_iff low v = number_from_iff low (parse_i64 v)

is_within_iff :
    (low high : ℕ) (v : Text) → (is_within (pos low) (pos high) v ≡ true) ↔ IsNumber low high v
unfolding is_at_most
is_within_iff low high v = number_within_iff low high (parse_i64 v)

is_flag_iff : (v : Text) → (is_flag v ≡ true) ↔ ((v ≡ codes "true") ⊎ (v ≡ codes "false"))
is_flag_iff v = ground (arith, text_beq_iff v (codes "true"), text_beq_iff v (codes "false"))

-- A request's parameters pass exactly when each that is there is in order: the page a number from 1
-- on, the transaction and the sender hexadecimal of their lengths, the type and the status numbers
-- up to 2 and 5, the flag "true" or "false", and the timestamp a number.
pub validate_params_iff : (params : Params) → (validate_params params ≡ ok tt) ↔ IsAccepted params
unfolding validate_params
validate_params_iff params = (
  λ h.
      let (page, h₁) = check-passes params "page" _ "Invalid page number" _ h in
      let (tx_id, h₂) = check-passes params "txId" _ "Invalid txId" _ h₁ in
      let (sender, h₃) = check-passes params "sender" _ "Invalid ethereum address format" _ h₂ in
      let (type_of_tx, h₄) = check-passes params "type" _ "Invalid type" _ h₃ in
      let (status, h₅) = check-passes params "status" _ "Invalid status" _ h₄ in
      let (unprocessed, h₆) = check-passes params "unprocessed" _ "Invalid unprocessed flag" _ h₅ in
      let (since, h₇) = check-passes params "sinceTxTimestamp" _ "Invalid sinceTxTimestamp" _ h₆ in
      record {
        page = λ v e. (is_from_iff 1 v).0 (page v e);
        tx_id = tx_id;
        sender = sender;
        type_of_tx = λ v e. (is_within_iff 0 2 v).0 (type_of_tx v e);
        status = λ v e. (is_within_iff 0 5 v).0 (status v e);
        unprocessed = λ v e. (is_flag_iff v).0 (unprocessed v e);
        since = λ v e. (is_from_iff 0 v).0 (since v e);
      },
  λ a.
      check-ok params "page" _ "Invalid page number" _ (λ v e. (is_from_iff 1 v).1 (a.page v e))
        (check-ok params "txId" _ "Invalid txId" _ a.tx_id (
          check-ok params "sender" _ "Invalid ethereum address format" _ a.sender (
            check-ok params "type" _ "Invalid type" _
              (λ v e. (is_within_iff 0 2 v).1 (a.type_of_tx v e))
              (check-ok params "status" _ "Invalid status" _
                (λ v e. (is_within_iff 0 5 v).1 (a.status v e))
                (check-ok params "unprocessed" _ "Invalid unprocessed flag" _
                  (λ v e. (is_flag_iff v).1 (a.unprocessed v e))
                  (check-ok params "sinceTxTimestamp" _ "Invalid sinceTxTimestamp" _
                    (λ v e. (is_from_iff 0 v).1 (a.since v e)) refl)))))),
)
