-- ===== src/Services/ApiTokens/Scopes.antt =====
-- services/api_tokens.go: the scopes of a token.
use goravel_authkit.Base.{
  ℕ, Bool, true, false, not, ◌&&◌, ◌||◌, List, [], ◌∷◌, ltb, leb, ◌==◌, if◌then◌else◌, length,
}
use goravel_authkit.Text.{Str, lit, trim_space, mem_str}
use goravel_authkit.Errors.{validation, Result, ok, err}

unfoldable pub is_alphanumeric : ℕ → Bool
is_alphanumeric c =
    (leb b'A' c && leb c b'Z') || (leb b'a' c && leb c b'z') || (leb b'0' c && leb c b'9')

unfoldable pub is_scope_rune : ℕ → Bool
unfolding is_alphanumeric
is_scope_rune c = is_alphanumeric c || c == b':' || c == b'_' || c == b'-'

unfoldable pub all_scope_runes : Str → Bool
unfolding is_scope_rune
all_scope_runes [] = true
all_scope_runes (c ∷ s) = is_scope_rune c && all_scope_runes s

-- ^[A-Za-z0-9][A-Za-z0-9:_-]{0,63}$
unfoldable pub matches_scope_pattern : Str → Bool
unfolding all_scope_runes
matches_scope_pattern [] = false
matches_scope_pattern (c ∷ s) = is_alphanumeric c && (all_scope_runes s && leb (length s) 63)

-- The order of strings, by their code points.
unfoldable pub str_le : Str → Str → Bool
str_le [] t = true
str_le (a ∷ s) [] = false
str_le (a ∷ s) (b ∷ t) = ltb a b || (a == b && str_le s t)

unfoldable pub insert_str : Str → List Str → List Str
unfolding str_le
insert_str s [] = s ∷ []
insert_str s (t ∷ ts) = let rest = insert_str s ts in if str_le s t then s ∷ t ∷ ts else t ∷ rest

-- sort.Strings
unfoldable pub sort_strings : List Str → List Str
unfolding insert_str
sort_strings [] = []
sort_strings (s ∷ ss) = insert_str s (sort_strings ss)

-- The loop of `validateScopes`; `seen` holds the scopes that are out.
unfoldable pub collect_scopes : (allowed seen : List Str) → List Str → Result (List Str)
collect_scopes allowed seen [] = ok []
collect_scopes allowed seen (raw ∷ input) =
    let scope = trim_space raw in
    let skip = collect_scopes allowed seen input in
    let next = collect_scopes allowed (scope ∷ seen) input in
    if not (matches_scope_pattern scope)
    then err (validation (lit "invalid api token scope"))
    else if not (mem_str allowed scope)
    then err (validation (lit "api token scope is not allowed"))
    else if mem_str seen scope
    then skip
    else elim next [ err e ↦ err e | ok out ↦ ok (scope ∷ out) ]

unfoldable pub validate_scopes : (allowed : List Str) → List Str → Result (List Str)
unfolding collect_scopes sort_strings
validate_scopes allowed input = elim (collect_scopes allowed [] input) [
  | err e ↦ err e
  | ok out ↦ ok (sort_strings out)
]
