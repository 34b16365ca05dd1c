-- ===== src/Str/Trim/Plain.antt =====
-- `trim` leaves a text without white space as it is.
use mathlib.Core.List.{reverse, reverse_aux, reverse-reverse}
use liberdus_proxy.Prelude.{ℕ, ◌<◌, ◌≤◌, ◌≡◌, refl, ◌∙◌, ap, arith, [], ◌∷◌, Text, All}
use liberdus_proxy.Str.Trim.{trim_start, trim_back, trim}

-- A visible character of ASCII.
abbrev pub IsVisible : ℕ → Type 0
IsVisible b = (33 ≤ b) × (b < 128)

trim_start-visible : (s : Text) → All IsVisible s → trim_start s ≡ s
unfolding trim_start
trim_start-visible [] h = refl
trim_start-visible (a ∷ []) ((h, h'), hs) = ground (arith, h, h')
trim_start-visible (a ∷ b ∷ []) ((h, h'), hs) = ground (arith, h, h')
trim_start-visible (a ∷ b ∷ c ∷ s) ((h, h'), hs) = ground (arith, h, h')

trim_back-visible : (s : Text) → All IsVisible s → trim_back s ≡ s
unfolding trim_back
trim_back-visible [] h = refl
trim_back-visible (a ∷ []) ((h, h'), hs) = ground (arith, h, h')
trim_back-visible (b ∷ a ∷ []) ((h, h'), hs) = ground (arith, h, h')
trim_back-visible (c ∷ b ∷ a ∷ s) ((h, h'), hs) = ground (arith, h, h')

All-reverse_aux : (s t : Text) → All IsVisible s → All IsVisible t → All IsVisible (reverse_aux s t)
All-reverse_aux [] t h h' = h'
All-reverse_aux (a ∷ s) t (h, hs) h' = All-reverse_aux s (a ∷ t) hs (h, h')

pub trim-visible : (s : Text) → All IsVisible s → trim s ≡ s
unfolding trim
trim-visible s h =
    ap (λ t. reverse (trim_back (reverse t))) (trim_start-visible s h)
    ∙ ap reverse (trim_back-visible (reverse s) (All-reverse_aux s [] h tt))
    ∙ reverse-reverse s
