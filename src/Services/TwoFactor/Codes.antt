-- ===== src/Services/TwoFactor/Codes.antt =====
-- services/twofactor.go: lemmas on recovery codes and their list.
use mathlib.Core.Path.{subst}
use goravel_authkit.Base.{
  ℕ, suc, ◌≡◌, refl, true, false, List, [], ◌∷◌, none, some, arith, All, Bool-cases, inl, inr,
}
use goravel_authkit.Text.{Str, str_eq}
use goravel_authkit.Text.Laws.{str_eq_sound}
use goravel_authkit.Models.{RecoveryCode}
use goravel_authkit.Services.TwoFactor.Recovery.{spend, unused}

-- No two codes have one hash.
abbrev pub DistinctHashes : List RecoveryCode → Type 0
DistinctHashes [] = Unit
DistinctHashes (c ∷ codes) =
    All (λ (d : RecoveryCode). str_eq d.hash c.hash ≡ false) codes × DistinctHashes codes

-- Spending a code takes one from those that are left.
pub spend-unused :
    (presented : Str) (now : ℕ) (codes after : List RecoveryCode)
    → spend presented now codes ≡ some after
    → unused codes ≡ suc (unused after)
unfolding spend unused
spend-unused presented now [] after e = cc
spend-unused presented now (c ∷ codes) [] e = ground arith
spend-unused presented now (c ∷ codes) (d ∷ after) e =
    ground (arith, spend-unused presented now codes after)

-- No code of the list has the hash.
abbrev pub Absent : Str → List RecoveryCode → Type 0
Absent presented codes = All (λ (d : RecoveryCode). str_eq d.hash presented ≡ false) codes

Absent-spend :
    (presented : Str) (now : ℕ) (codes : List RecoveryCode)
    → Absent presented codes
    → spend presented now codes ≡ none
unfolding spend
Absent-spend presented now [] h = refl
Absent-spend presented now (c ∷ codes) h = ground (arith, Absent-spend presented now codes h.1)

Absent-equal :
    (s t : Str) (codes : List RecoveryCode) → str_eq s t ≡ true → Absent s codes → Absent t codes
Absent-equal s t codes e h = subst (λ u. Absent u codes) (str_eq_sound s t e) h

-- A code that was spent is refused from then on, where no two codes have one hash.
pub spend-spend :
    (presented : Str) (now later : ℕ) (codes after : List RecoveryCode)
    → DistinctHashes codes
    → spend presented now codes ≡ some after
    → spend presented later after ≡ none
unfolding spend
spend-spend presented now later [] after h e = cc
spend-spend presented now later (c ∷ codes) [] h e = ground arith
spend-spend presented now later (c ∷ codes) (d ∷ after) h e =
    elim (Bool-cases (str_eq c.hash presented)) [
      | inl same ↦ ground (
        arith,
        Absent-spend presented later codes (Absent-equal c.hash presented codes same h.0),
        spend-spend presented now later codes after h.1,
      )
      | inr ne ↦ ground (arith, spend-spend presented now later codes after h.1)
    ]

-- Whether a code can be spent does not depend on the clock.
pub spend-anytime :
    (presented : Str) (now later : ℕ) (codes : List RecoveryCode)
    → spend presented now codes ≡ none
    → spend presented later codes ≡ none
unfolding spend
spend-anytime presented now later [] e = refl
spend-anytime presented now later (c ∷ codes) e =
    ground (arith, spend-anytime presented now later codes)

-- Spending another code does not bring one back.
pub spend-none :
    (presented other : Str) (now : ℕ) (codes after : List RecoveryCode)
    → spend presented 0 codes ≡ none
    → spend other now codes ≡ some after
    → spend presented 0 after ≡ none
unfolding spend
spend-none presented other now [] after h e = cc
spend-none presented other now (c ∷ codes) [] h e = ground arith
spend-none presented other now (c ∷ codes) (d ∷ after) h e =
    ground (arith, spend-none presented other now codes after)
