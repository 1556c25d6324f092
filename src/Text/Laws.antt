-- ===== src/Text/Laws.antt =====
-- Laws of the string functions.
use goravel_authkit.Base.{ℕ, ◌≡◌, refl, ◌↔◌, true, false, [], ◌∷◌, ◌++◌, some, arith}
use goravel_authkit.Text.{Str, str_eq, contains_rune, cut}

pub str_eq_sound : (s t : Str) → str_eq s t ≡ true → s ≡ t
unfolding str_eq
str_eq_sound [] [] e = refl
str_eq_sound (a ∷ s) (b ∷ t) e = ground (arith, str_eq_sound s t)
str_eq_sound [] (b ∷ t) e = cc
str_eq_sound (a ∷ s) [] e = cc

pub str_eq_refl : (s : Str) → str_eq s s ≡ true
unfolding str_eq
str_eq_refl [] = refl
str_eq_refl (a ∷ s) = ground (arith, str_eq_refl s)

pub str_eq_iff : (s t : Str) → (str_eq s t ≡ true) ↔ (s ≡ t)
str_eq_iff s t = (str_eq_sound s t, λ e. rw e (str_eq_refl t))

-- A separator that the first part does not hold is where `cut` splits.
pub cut-append :
    (s t : Str) (sep : ℕ) → contains_rune s sep ≡ false → cut (s ++ sep ∷ t) sep ≡ some (s, t)
unfolding cut contains_rune
cut-append [] t sep h = ground arith
cut-append (a ∷ s) t sep h = ground (arith, cut-append s t sep)

pub str_eq-sym : (s t : Str) → str_eq s t ≡ str_eq t s
unfolding str_eq
str_eq-sym [] [] = refl
str_eq-sym [] (b ∷ t) = refl
str_eq-sym (a ∷ s) [] = refl
str_eq-sym (a ∷ s) (b ∷ t) = ground (arith, str_eq-sym s t)
