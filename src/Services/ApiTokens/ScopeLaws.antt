-- ===== src/Services/ApiTokens/ScopeLaws.antt =====
-- services/api_tokens.go: what the list of scopes that `validateScopes` returns is.
use goravel_authkit.Base.{
  ◌≡◌, refl, ap, ◌∙◌, true, false, not, ◌&&◌, List, [], ◌∷◌, arith, All, Bool-cases, inl, inr, ◌⊎◌,
}
use goravel_authkit.Text.{Str, str_eq, mem_str, trim_space}
use goravel_authkit.Text.Laws.{str_eq_sound, str_eq_refl}
use goravel_authkit.Services.ApiTokens.{trimmed_scopes}
use goravel_authkit.Errors.{Err, Result, ok, err}
use goravel_authkit.Services.ApiTokens.Scopes.{
  matches_scope_pattern, sort_strings, collect_scopes, validate_scopes,
}
use goravel_authkit.Services.ApiTokens.ScopeOrder.{StrictlySorted, Different, sort-mem, sort-sorted}

-- What an accepted input says of its first scope.
abbrev Step : (allowed seen : List Str) → (scope : Str) → (input out : List Str) → Type 0
Step allowed seen scope input out =
    (matches_scope_pattern scope ≡ true)
    × (mem_str allowed scope ≡ true)
    × (((mem_str seen scope ≡ true) × (collect_scopes allowed seen input ≡ ok out))
        ⊎ ((mem_str seen scope ≡ false)
            × ((rest : List Str) × (out ≡ scope ∷ rest)
                × (collect_scopes allowed (scope ∷ seen) input ≡ ok rest))))

Result-cases :
    (r : Result (List Str)) → ((out : List Str) × (r ≡ ok out)) ⊎ ((e : Err) × (r ≡ err e))
Result-cases (ok out) = inl (out, refl)
Result-cases (err e) = inr (e, refl)

collect-Step :
    (allowed seen : List Str) (r : Str) (input out : List Str)
    → collect_scopes allowed seen (r ∷ input) ≡ ok out
    → Step allowed seen (trim_space r) input out
unfolding collect_scopes
collect-Step allowed seen r input out e = elim (Bool-cases (mem_str seen (trim_space r))) [
  | inl s ↦ (ground arith, ground arith, inl (s, ground arith))
  | inr s ↦ elim (Result-cases (collect_scopes allowed (trim_space r ∷ seen) input)) [
    | inl (rest, f) ↦ (ground arith, ground arith, inr (s, (rest, ground arith, f)))
    | inr (x, f) ↦ ground arith
  ]
]

mem-equal : (xs : List Str) (s t : Str) → str_eq s t ≡ true → mem_str xs s ≡ mem_str xs t
mem-equal xs s t e = ap (mem_str xs) (str_eq_sound s t e)

collect-mem :
    (allowed seen input out : List Str) (t : Str)
    → collect_scopes allowed seen input ≡ ok out
    → mem_str out t ≡ (mem_str (trimmed_scopes input) t && not (mem_str seen t))
unfolding mem_str trimmed_scopes collect_scopes
collect-mem allowed seen [] [] t e = refl
collect-mem allowed seen [] (o ∷ out) t e = cc
collect-mem allowed seen (r ∷ input) out t e =
    let same = mem-equal seen (trim_space r) t in
    let (m, a, c) = collect-Step allowed seen r input out e in
    elim c [
      | inl (s, f) ↦ ground (arith, collect-mem allowed seen input out t f)
      | inr (s, (rest, shape, f)) ↦
          rw shape (ground (arith, collect-mem allowed (trim_space r ∷ seen) input rest t f))
    ]

collect-Different :
    (allowed seen input out : List Str) → collect_scopes allowed seen input ≡ ok out → Different out
unfolding mem_str collect_scopes
collect-Different allowed seen [] [] e = tt
collect-Different allowed seen [] (o ∷ out) e = cc
collect-Different allowed seen (r ∷ input) out e =
    let (m, a, c) = collect-Step allowed seen r input out e in
    elim c [
      | inl (s, f) ↦ collect-Different allowed seen input out f
      | inr (s, (rest, shape, f)) ↦ rw shape (
        collect-mem allowed (trim_space r ∷ seen) input rest (trim_space r) f
            ∙ ground (arith, str_eq_refl (trim_space r)),
        collect-Different allowed (trim_space r ∷ seen) input rest f,
      )
    ]

-- Every scope has the pattern and is one of the allowed.
abbrev pub Acceptable : List Str → List Str → Type 0
Acceptable allowed scopes =
    All (λ s. (matches_scope_pattern s ≡ true) × (mem_str allowed s ≡ true)) scopes

collect-Acceptable :
    (allowed seen input out : List Str)
    → collect_scopes allowed seen input ≡ ok out
    → Acceptable allowed (trimmed_scopes input)
unfolding collect_scopes trimmed_scopes
collect-Acceptable allowed seen [] out e = tt
collect-Acceptable allowed seen (r ∷ input) out e =
    let (m, a, c) = collect-Step allowed seen r input out e in
    elim c [
      | inl (s, f) ↦ ((m, a), collect-Acceptable allowed seen input out f)
      | inr (s, (rest, shape, f)) ↦
          ((m, a), collect-Acceptable allowed (trim_space r ∷ seen) input rest f)
    ]

collect-total :
    (allowed seen input : List Str)
    → Acceptable allowed (trimmed_scopes input)
    → (out : List Str) × (collect_scopes allowed seen input ≡ ok out)
unfolding collect_scopes trimmed_scopes
collect-total allowed seen [] h = ([], refl)
collect-total allowed seen (r ∷ input) h = elim (Bool-cases (mem_str seen (trim_space r))) [
  | inl s ↦ let (out, e) = collect-total allowed seen input h.1 in (out, rw (h.0.0, h.0.1, s) e)
  | inr s ↦
      let (out, e) = collect-total allowed (trim_space r ∷ seen) input h.1 in
      (trim_space r ∷ out, rw (h.0.0, h.0.1, s, e) refl)
]

-- Scopes that are accepted come out strictly sorted, and with the very members of the trimmed
-- input, each of which has the pattern and is allowed.
pub validate_scopes-exact :
    (allowed input out : List Str)
    → validate_scopes allowed input ≡ ok out
    → StrictlySorted out
      × ((t : Str) → mem_str out t ≡ mem_str (trimmed_scopes input) t)
      × Acceptable allowed (trimmed_scopes input)
unfolding validate_scopes mem_str
validate_scopes-exact allowed input out e = elim (Result-cases (collect_scopes allowed [] input)) [
  | inr (x, f) ↦ absurd (ground arith)
  | inl (found, f) ↦
      let sorted : sort_strings found ≡ out = ground arith in
      rw (← sorted) (
        sort-sorted found (collect-Different allowed [] input found f),
        λ t. sort-mem t found ∙ (collect-mem allowed [] input found t f ∙ ground arith),
        collect-Acceptable allowed [] input found f,
      )
]

-- Scopes that all have the pattern and are allowed are accepted.
pub validate_scopes-accepts :
    (allowed input : List Str)
    → Acceptable allowed (trimmed_scopes input)
    → (out : List Str) × (validate_scopes allowed input ≡ ok out)
unfolding validate_scopes
validate_scopes-accepts allowed input h =
    let (out, e) = collect-total allowed [] input h in
    (sort_strings out, rw (validate_scopes, e) refl)
