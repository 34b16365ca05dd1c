-- ===== src/Observer/Rotation/Turns.antt =====
-- Which observer a request tries first, and which after it.
use native.Mathlib.Nat.{mod-add-mod, mod-lt, mod-eq_of_lt, add-mod_right}
use liberdus_proxy.Prelude.{
  Bool-cases, true, false, ℕ, zero, suc, ◌+◌, ◌-◌, ◌%◌, ◌^◌, ◌<◌, ◌≤◌, ◌≡◌, refl, sym, ap, ◌∙◌, ◌⊎◌,
  inl, inr, arith, List, [], ◌∷◌, ◌++◌, Text, length, length-drop, get_elem?, take, drop, leb,
}
use liberdus_proxy.Observer.Rotation.{observer_urls_round_robin_at_start, observer_urls_round_robin}

wrapped : (a n : ℕ) → n ≤ a → a < n + n → a % n ≡ a - n
wrapped a n h₁ h₂ =
    let whole : a ≡ a - n + n = omega (arith, h₁) in
    ap (λ x. x % n) whole ∙ add-mod_right (a - n) n ∙ mod-eq_of_lt (omega (arith, h₁, h₂))

module _ {ℓ} {A : Type ℓ} where
  get_elem?-append :
      (xs ys : List A) (i : ℕ)
      → ((i < length xs) × (get_elem? (xs ++ ys) i ≡ get_elem? xs i))
        ⊎ ((length xs ≤ i) × (get_elem? (xs ++ ys) i ≡ get_elem? ys (i - length xs)))
  get_elem?-append [] ys i = inr (omega arith, ap (get_elem? ys) (omega arith))
  get_elem?-append (x ∷ xs) ys zero = inl (omega arith, refl)
  get_elem?-append (x ∷ xs) ys (suc i) = elim (get_elem?-append xs ys i) [
    | inl (h, e) ↦ inl (omega (arith, h), e)
    | inr (h, e) ↦ inr (omega (arith, h), e ∙ ap (get_elem? ys) (omega arith))
  ]

  get_elem?-drop : (k : ℕ) (xs : List A) (i : ℕ) → get_elem? (drop k xs) i ≡ get_elem? xs (k + i)
  get_elem?-drop zero xs i = ap (get_elem? xs) (omega arith)
  get_elem?-drop (suc k) [] i = refl
  get_elem?-drop (suc k) (x ∷ xs) i =
      let next : suc k + i ≡ suc (k + i) = omega arith in rw next (get_elem?-drop k xs i)

  get_elem?-take : (k : ℕ) (xs : List A) (i : ℕ) → i < k → get_elem? (take k xs) i ≡ get_elem? xs i
  get_elem?-take zero xs i h = absurd (omega (arith, h))
  get_elem?-take (suc k) [] i h = refl
  get_elem?-take (suc k) (x ∷ xs) zero h = refl
  get_elem?-take (suc k) (x ∷ xs) (suc i) h = get_elem?-take k xs i (omega (arith, h))

  get_elem?-rotated :
      (k : ℕ) (xs : List A) (i : ℕ)
      → k < length xs
      → i < length xs
      → get_elem? (drop k xs ++ take k xs) i ≡ get_elem? xs ((k + i) % length xs)
  get_elem?-rotated k xs i h₁ h₂ = elim (get_elem?-append (drop k xs) (take k xs) i) [
    | inl (h, e) ↦
        let near : (k + i) % length xs ≡ k + i =
          mod-eq_of_lt (omega (arith, h, h₁, length-drop k xs)) in
        e ∙ get_elem?-drop k xs i ∙ rw near refl
    | inr (h, e) ↦
        let far : (k + i) % length xs ≡ i - length (drop k xs) =
          wrapped (k + i) (length xs) (omega (arith, h, h₁, length-drop k xs))
            (omega (arith, h₁, h₂))
          ∙ omega (arith, h, h₁, length-drop k xs) in
        e
        ∙ get_elem?-take k xs (i - length (drop k xs)) (omega (arith, h, h₁, h₂, length-drop k xs))
        ∙ rw far refl
  ]

-- The observers are tried in their order from the start's place on, and around the end: at place i
-- the one of index (start + i) % n.
pub get_elem?-observer_urls_round_robin_at_start :
    (urls : List Text) (start i : ℕ)
    → i < length urls
    → get_elem? (observer_urls_round_robin_at_start urls start) i
      ≡ get_elem? urls ((start + i) % length urls)
unfolding observer_urls_round_robin_at_start
get_elem?-observer_urls_round_robin_at_start urls start i h =
    elim (Bool-cases (leb (length urls) 1)) [
      | inl e ↦ let only : (start + i) % length urls ≡ i = ground (arith, e, h) in rw (e, only) refl
      | inr e ↦
          rw e (get_elem?-rotated (start % length urls) urls i (mod-lt start (omega (arith, h))) h)
          ∙ ap (get_elem? urls) (mod-add-mod start (length urls) i)
    ]

-- The order of the request that comes after so many others.
pub order : List Text → ℕ → ℕ → List Text
order urls index zero = (observer_urls_round_robin urls index).0
order urls index (suc d) = order urls ((observer_urls_round_robin urls index).1) d

observer_urls_round_robin-alone :
    (urls : List Text) (index : ℕ)
    → leb (length urls) 1 ≡ true
    → observer_urls_round_robin urls index ≡ (urls, index)
unfolding observer_urls_round_robin
observer_urls_round_robin-alone urls index h = rw h refl

observer_urls_round_robin-many :
    (urls : List Text) (index : ℕ)
    → 1 < length urls
    → observer_urls_round_robin urls index
      ≡ (observer_urls_round_robin_at_start urls index, (index + 1) % 2 ^ 64)
unfolding observer_urls_round_robin
observer_urls_round_robin-many urls index h =
    let many : leb (length urls) 1 ≡ false = ground (arith, h) in rw many refl

order-at_start :
    (urls : List Text) (index d : ℕ)
    → 1 < length urls
    → index + d < 2 ^ 64
    → order urls index d ≡ observer_urls_round_robin_at_start urls (index + d)
unfolding order
order-at_start urls index zero h₁ h₂ =
    let same : index + 0 ≡ index = omega arith in
    ap (λ p. p.0) (observer_urls_round_robin-many urls index h₁)
    ∙ ap (observer_urls_round_robin_at_start urls) (sym same)
order-at_start urls index (suc d) h₁ h₂ =
    let next : (index + 1) % 2 ^ 64 ≡ index + 1 = omega (arith, h₂) in
    let sum : index + 1 + d ≡ index + suc d = omega arith in
    ap (λ p. order urls (p.1) d) (observer_urls_round_robin-many urls index h₁)
    ∙ ap (λ i. order urls i d) next
    ∙ (order-at_start urls (index + 1) d h₁ (omega (arith, h₂))
        ∙ ap (observer_urls_round_robin_at_start urls) sum)

reaches : (index n j : ℕ) → j < n → (d : ℕ) × (d < n) × ((index + d) % n ≡ j)
reaches index n j h = elim (Bool-cases (leb (index % n) j)) [
  | inl e ↦ (
    j - index % n,
    ground (arith, e, h),
    sym (mod-add-mod index n (j - index % n))
        ∙ ap (λ x. x % n) (ground (arith, e))
        ∙ mod-eq_of_lt h,
  )
  | inr e ↦ (
    j + n - index % n,
    ground (arith, e, h),
    sym (mod-add-mod index n (j + n - index % n))
        ∙ ap (λ x. x % n) (ground (arith, mod-lt index {m = n} (omega (arith, h))))
        ∙ add-mod_right j n
        ∙ mod-eq_of_lt h,
  )
]

-- Of as many requests in a row as there are observers, each observer is the first that one of them
-- tries, as long as the counter does not wrap.
pub order-each_first :
    (urls : List Text) (index j : ℕ)
    → j < length urls
    → index + length urls ≤ 2 ^ 64
    → (d : ℕ) × (d < length urls) × (get_elem? (order urls index d) 0 ≡ get_elem? urls j)
unfolding order observer_urls_round_robin
order-each_first urls index j h₁ h₂ = elim (Bool-cases (leb (length urls) 1)) [
  | inl e ↦ (
    0,
    ground (arith, e, h₁),
    ap (λ p. get_elem? (p.0) 0) (observer_urls_round_robin-alone urls index e)
        ∙ ap (get_elem? urls) (ground (arith, e, h₁)),
  )
  | inr e ↦
      let (d, within, there) = reaches index (length urls) j h₁ in
      (
        d,
        within,
        ap (λ o. get_elem? o 0)
              (order-at_start urls index d (ground (arith, e)) (omega (arith, within, h₂)))
            ∙ get_elem?-observer_urls_round_robin_at_start urls (index + d) 0
                (omega (arith, within))
            ∙ ap (get_elem? urls) (ap (λ x. x % length urls) (omega arith) ∙ there),
      )
]
