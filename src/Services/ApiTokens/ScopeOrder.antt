-- ===== src/Services/ApiTokens/ScopeOrder.antt =====
-- services/api_tokens.go: the order of strings, and sorting by insertion.
use goravel_authkit.Base.{
  ◌≡◌, refl, ◌∙◌, true, false, ◌||◌, List, [], ◌∷◌, arith, All, Bool-cases, inl, inr,
}
use goravel_authkit.Text.{Str, str_eq, mem_str}
use goravel_authkit.Text.Laws.{str_eq-sym}
use goravel_authkit.Services.ApiTokens.Scopes.{str_le, insert_str, sort_strings}

-- Each string comes before the next, and no two are equal.
abbrev pub StrictlySorted : List Str → Type 0
StrictlySorted [] = Unit
StrictlySorted (s ∷ ss) =
    All (λ t. (str_le s t ≡ true) × (str_eq s t ≡ false)) ss × StrictlySorted ss

str_le-total : (s t : Str) → str_le s t ≡ false → str_le t s ≡ true
unfolding str_le
str_le-total [] t e = cc
str_le-total (a ∷ s) [] e = refl
str_le-total (a ∷ s) (b ∷ t) e = ground (arith, str_le-total s t)

str_le_trans : (s t u : Str) → str_le s t ≡ true → str_le t u ≡ true → str_le s u ≡ true
unfolding str_le
str_le_trans [] t u e f = refl
str_le_trans (a ∷ s) [] u e f = cc
str_le_trans (a ∷ s) (b ∷ t) [] e f = cc
str_le_trans (a ∷ s) (b ∷ t) (c ∷ u) e f = ground (arith, str_le_trans s t u)

abbrev After : Str → List Str → Type 0
After s ss = All (λ t. (str_le s t ≡ true) × (str_eq s t ≡ false)) ss

insert-After :
    (r s : Str) (ss : List Str)
    → str_le r s ≡ true
    → str_eq r s ≡ false
    → After r ss
    → After r (insert_str s ss)
unfolding insert_str
insert-After r s [] le ne h = ((le, ne), tt)
insert-After r s (t ∷ ts) le ne h = elim (Bool-cases (str_le s t)) [
  | inl e ↦ rw e ((le, ne), h)
  | inr e ↦ rw e (h.0, insert-After r s ts le ne h.1)
]

weaken-After :
    (s t : Str) (ts : List Str) → str_le s t ≡ true → mem_str ts s ≡ false → After t ts → After s ts
unfolding mem_str
weaken-After s t [] le m h = tt
weaken-After s t (u ∷ us) le m h = (
  (str_le_trans s t u le h.0.0, ground (arith, str_eq-sym s u)),
  weaken-After s t us le (ground arith) h.1,
)

insert-sorted :
    (s : Str) (ss : List Str)
    → mem_str ss s ≡ false
    → StrictlySorted ss
    → StrictlySorted (insert_str s ss)
unfolding insert_str mem_str
insert-sorted s [] m h = (tt, tt)
insert-sorted s (t ∷ ts) m h = elim (Bool-cases (str_le s t)) [
  | inl e ↦
      rw e (((e, ground (arith, str_eq-sym s t)), weaken-After s t ts e (ground arith) h.0), h)
  | inr e ↦ rw e (
    insert-After t s ts (str_le-total s t e) (ground arith) h.0,
    insert-sorted s ts (ground arith) h.1,
  )
]

insert-mem :
    (s t : Str) (ss : List Str) → mem_str (insert_str s ss) t ≡ (str_eq s t || mem_str ss t)
unfolding insert_str mem_str
insert-mem s t [] = refl
insert-mem s t (u ∷ us) = ground (arith, insert-mem s t us)

pub sort-mem : (t : Str) (ss : List Str) → mem_str (sort_strings ss) t ≡ mem_str ss t
unfolding sort_strings mem_str
sort-mem t [] = refl
sort-mem t (s ∷ ss) = rw (insert-mem s t (sort_strings ss), sort-mem t ss) refl

-- All strings are different.
abbrev pub Different : List Str → Type 0
Different [] = Unit
Different (s ∷ ss) = (mem_str ss s ≡ false) × Different ss

pub sort-sorted : (ss : List Str) → Different ss → StrictlySorted (sort_strings ss)
unfolding sort_strings
sort-sorted [] d = tt
sort-sorted (s ∷ ss) d =
    insert-sorted s (sort_strings ss) (sort-mem s ss ∙ d.0) (sort-sorted ss d.1)
