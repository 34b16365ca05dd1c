-- ===== src/Archivers/Keys.antt =====
-- The order of the public keys.
use liberdus_proxy.Prelude.{◌≡◌, refl, Bool, true, false, not, ◌&&◌, [], ◌∷◌, arith, Text, text_beq}
use liberdus_proxy.Archivers.{text_leb}

abbrev pub text_ltb : Text → Text → Bool
text_ltb a b = text_leb a b && not (text_beq a b)

pub text_leb_total : (a b : Text) → text_leb a b ≡ false → text_leb b a ≡ true
text_leb_total [] b h = absurd (ground arith)
text_leb_total (x ∷ xs) [] h = refl
text_leb_total (x ∷ xs) (y ∷ ys) h = ground (arith, text_leb_total xs ys)

pub text_leb_trans :
    (a b c : Text) → text_leb a b ≡ true → text_leb b c ≡ true → text_leb a c ≡ true
text_leb_trans [] b c h k = refl
text_leb_trans (x ∷ xs) [] c h k = absurd (ground arith)
text_leb_trans (x ∷ xs) (y ∷ ys) [] h k = absurd (ground arith)
text_leb_trans (x ∷ xs) (y ∷ ys) (z ∷ zs) h k = ground (arith, text_leb_trans xs ys zs)

pub text_ltb_trans :
    (a b c : Text) → text_ltb a b ≡ true → text_ltb b c ≡ true → text_ltb a c ≡ true
text_ltb_trans [] [] c h k = absurd (ground arith)
text_ltb_trans [] (y ∷ ys) [] h k = absurd (ground arith)
text_ltb_trans [] (y ∷ ys) (z ∷ zs) h k = ground arith
text_ltb_trans (x ∷ xs) [] c h k = absurd (ground arith)
text_ltb_trans (x ∷ xs) (y ∷ ys) [] h k = absurd (ground arith)
text_ltb_trans (x ∷ xs) (y ∷ ys) (z ∷ zs) h k = ground (arith, text_ltb_trans xs ys zs)
