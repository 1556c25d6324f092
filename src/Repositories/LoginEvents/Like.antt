-- ===== src/Repositories/LoginEvents/Like.antt =====
-- repositories/login_events.go: what the pattern matches, by the rules of LIKE with ESCAPE '!'.
use goravel_authkit.Base.{
  ℕ, ◌≡◌, refl, ap, ◌∙◌, Bool, true, false, ◌&&◌, ◌||◌, [], ◌∷◌, ◌++◌, arith, ◌==◌, Bool-cases, inl,
  inr, if◌then◌else◌, is_empty,
}
use goravel_authkit.Text.{Str}
use goravel_authkit.Text.{to_lower, has_prefix, contains}
use goravel_authkit.Repositories.LoginEvents.{
  like, any_suffix, after_rune, guard_rune, literal_contains_pattern,
}

abbrev escaped : Str → Str
escaped s = guard_rune b'_' (guard_rune b'%' (guard_rune b'!' s))

any_suffix-empty : (t : Str) → any_suffix is_empty t ≡ true
any_suffix-empty [] = refl
any_suffix-empty (c ∷ t) = ground (arith, any_suffix-empty t)

abbrev is_special : ℕ → Bool
is_special c = c == b'!' || (c == b'%' || c == b'_')

-- The three replacements in one pass.
abbrev escape : Str → Str
escape [] = []
escape (c ∷ s) = let rest = escape s in if is_special c then b'!' ∷ c ∷ rest else c ∷ rest

escaped-escape : (s : Str) → escaped s ≡ escape s
unfolding guard_rune
escaped-escape [] = refl
escaped-escape (c ∷ s) = ground (arith, escaped-escape s)

like-special : (c : ℕ) (p t : Str) → like (b'!' ∷ c ∷ p) t ≡ after_rune c (like p) t
unfolding like
like-special c p t = refl

like-plain : (c : ℕ) (p t : Str) → is_special c ≡ false → like (c ∷ p) t ≡ after_rune c (like p) t
unfolding like
like-plain c [] t h =
    let any : (c == b'%') ≡ false = ground arith in
    let one : (c == b'_') ≡ false = ground arith in rw (like, any, one) refl
like-plain c (d ∷ p) t h =
    let any : (c == b'%') ≡ false = ground arith in
    let one : (c == b'_') ≡ false = ground arith in
    let mark : (c == b'!') ≡ false = ground arith in rw (like, any, one, mark) refl

like-escape : (s t : Str) → like (escape s ++ b'%' ∷ []) t ≡ has_prefix t s
unfolding like has_prefix
like-escape [] t = any_suffix-empty t
like-escape (c ∷ s) [] = elim (Bool-cases (is_special c)) [
  | inl h ↦ rw h refl
  | inr h ↦ rw h (like-plain c (escape s ++ b'%' ∷ []) [] h)
]
like-escape (c ∷ s) (x ∷ t) = elim (Bool-cases (is_special c)) [
  | inl h ↦ rw h (ap (λ b. x == c && b) (like-escape s t))
  | inr h ↦
      rw h
        (like-plain c (escape s ++ b'%' ∷ []) (x ∷ t) h ∙ ap (λ b. x == c && b) (like-escape s t))
]

any_suffix-has_prefix :
    (f : Str → Bool) (s t : Str)
    → ((u : Str) → f u ≡ has_prefix u s)
    → any_suffix f t ≡ contains t s
unfolding contains
any_suffix-has_prefix f s [] h = h []
any_suffix-has_prefix f s (x ∷ t) h = ground (arith, h (x ∷ t), any_suffix-has_prefix f s t h)

like-any : (p t : Str) → like (b'%' ∷ p) t ≡ any_suffix (like p) t
unfolding like
like-any [] t = refl
like-any (d ∷ p) t = refl

-- By the rules of LIKE with ESCAPE, the pattern of a literal search matches exactly the texts
-- that contain the value in lower case, whatever wildcards and escape characters the value has.
pub like-literal_contains_pattern :
    (lower_table : ℕ → ℕ) (value text : Str)
    → like (literal_contains_pattern lower_table value) text
      ≡ contains text (to_lower lower_table value)
unfolding literal_contains_pattern
like-literal_contains_pattern lower_table value text =
    let v = to_lower lower_table value in
    like-any (escaped v ++ b'%' ∷ []) text
    ∙ any_suffix-has_prefix (like (escaped v ++ b'%' ∷ [])) v text
        (λ u. ap (λ p. like (p ++ b'%' ∷ []) u) (escaped-escape v) ∙ like-escape v u)
