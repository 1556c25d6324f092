-- ===== src/Services/TwoFactor/CodeShape.antt =====
-- services/twofactor.go: the characters of a recovery code.
use goravel_authkit.Base.{
  ℕ, suc, ◌+◌, ◌≡◌, ◌≤◌, ◌<◌, refl, true, false, List, [], ◌∷◌, Option, some, leb, arith, ◌==◌,
  length, All, Bool-cases, inl, inr, if◌then◌else◌,
}
use goravel_authkit.Text.{Str}
use goravel_authkit.Errors.{ok}
use goravel_authkit.Base.{zero, ◌%◌}
use goravel_authkit.Text.{contains_rune}
use goravel_authkit.Services.TwoFactor.Recovery.{
  draw, random_recovery_code, drawn_char, recovery_alphabet, char_at, max_byte,
}

-- `todo` characters from position `len` on: a dash at position 5, others of the alphabet.
abbrev pub WellShaped : (todo len : ℕ) → Str → Type 0
WellShaped zero len s = s ≡ []
WellShaped (suc todo) len [] = ⊥
WellShaped (suc todo) len (c ∷ s) =
    ((if len == 5 then c == b'-' else contains_rune recovery_alphabet c) ≡ true)
    × WellShaped todo (len + 1) s

-- Draws of rand.Read that all succeed.
abbrev pub drawn : List ℕ → List (Option ℕ)
drawn [] = []
drawn (b ∷ bs) = some b ∷ drawn bs

-- The bytes that the loop takes.
abbrev needed : (todo len : ℕ) → ℕ
needed zero len = 0
needed (suc todo) len = let n = needed todo (len + 1) in if len == 5 then n else suc n

char_at-contains : (s : Str) (i : ℕ) → i < length s → contains_rune s (char_at s i) ≡ true
unfolding char_at contains_rune
char_at-contains [] i h = absurd (omega arith)
char_at-contains (c ∷ s) zero h = ground arith
char_at-contains (c ∷ s) (suc i) h = ground (arith, char_at-contains s i)

drawn_char-contains : (b : ℕ) → contains_rune recovery_alphabet (drawn_char b) ≡ true
drawn_char-contains b = char_at-contains recovery_alphabet (b % 32) (omega arith)

draw-shape :
    (todo len : ℕ) (bs : List ℕ)
    → All (λ b. b < 256) bs
    → needed todo len ≤ length bs
    → (code : Str) × (rest : List (Option ℕ)) × (draw todo len (drawn bs) ≡ ok (code, rest))
      × WellShaped todo len code
unfolding draw
draw-shape zero len bs h n = ([], drawn bs, refl, refl)
draw-shape (suc todo) len [] h n = elim (Bool-cases (len == 5)) [
  | inr f ↦ absurd (ground arith)
  | inl d ↦
      let (code, rest, e, w) = draw-shape todo (len + 1) [] h (ground arith) in
      (b'-' ∷ code, rest, rw (d, e) refl, (rw d refl, w))
]
draw-shape (suc todo) len (b ∷ bs) h n = elim (Bool-cases (len == 5)) [
  | inr f ↦
      let (code, rest, e, w) = draw-shape todo (len + 1) bs h.1 (ground arith) in
      let low : leb max_byte b ≡ false = ground arith in
      (drawn_char b ∷ code, rest, rw (f, low, e) refl, (rw f (drawn_char-contains b), w))
  | inl d ↦
      let (code, rest, e, w) = draw-shape todo (len + 1) (b ∷ bs) h (ground arith) in
      (b'-' ∷ code, rest, rw (d, e) refl, (rw d refl, w))
]

-- Ten bytes are enough for a recovery code: no byte is rejected. The code has eleven characters,
-- a dash at place 5, and characters of the alphabet elsewhere.
pub random_recovery_code-WellShaped :
    (bs : List ℕ)
    → All (λ b. b < 256) bs
    → 10 ≤ length bs
    → (code : Str) × (rest : List (Option ℕ)) × (random_recovery_code (drawn bs) ≡ ok (code, rest))
      × WellShaped 11 0 code
unfolding random_recovery_code
random_recovery_code-WellShaped bs h n = draw-shape 11 0 bs h n
