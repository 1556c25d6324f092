-- ===== src/Services/TwoFactor/Recovery.antt =====
-- services/twofactor.go: recovery codes, how they are drawn, stored and spent. The bytes that
-- rand.Read gives, one at a time, are a list; `none` is its failure.
use goravel_authkit.Base.{
  ℕ, zero, suc, ◌+◌, ◌-◌, ◌%◌, not, ◌&&◌, List, [], ◌∷◌, Option, none, some, leb, ◌==◌,
  if◌then◌else◌, is_some, length, count,
}
use goravel_authkit.Text.{Str, lit, str_eq, trim_space, to_upper}
use goravel_authkit.Errors.{driver, Result, ok, err}
use goravel_authkit.Models.{RecoveryCode}
use goravel_authkit.External.{External}

abbrev pub recovery_alphabet : Str
recovery_alphabet = lit "ABCDEFGHJKLMNPQRSTUVWXYZ23456789"

-- The least byte that is rejected, against modulo bias.
abbrev pub max_byte : ℕ
max_byte = 256 - 256 % length recovery_alphabet

unfoldable pub char_at : Str → ℕ → ℕ
char_at [] i = 0
char_at (c ∷ s) zero = c
char_at (c ∷ s) (suc i) = char_at s i

abbrev pub prefixed : ℕ → Result (Str × List (Option ℕ)) → Result (Str × List (Option ℕ))
prefixed c (err e) = err e
prefixed c (ok (code, rest)) = ok (c ∷ code, rest)

abbrev pub drawn_char : ℕ → ℕ
drawn_char b = char_at recovery_alphabet (b % length recovery_alphabet)

-- The loop of `randomRecoveryCode`: `len` characters are out, `todo` are missing. The answer is
-- what the loop appends, and the bytes that it leaves. A list of bytes that ends counts as a
-- failure of rand.Read.
unfoldable pub draw : (todo len : ℕ) → List (Option ℕ) → Result (Str × List (Option ℕ))
unfolding char_at
draw zero len bytes = ok ([], bytes)
draw (suc todo) len [] =
    let dash = prefixed b'-' (draw todo (len + 1) []) in
    if len == 5 then dash else err (driver (lit "rand"))
draw (suc todo) len (none ∷ bytes) =
    let dash = prefixed b'-' (draw todo (len + 1) (none ∷ bytes)) in
    if len == 5 then dash else err (driver (lit "rand"))
draw (suc todo) len (some b ∷ bytes) =
    let dash = prefixed b'-' (draw todo (len + 1) (some b ∷ bytes)) in
    let retry = draw (suc todo) len bytes in
    let next = prefixed (drawn_char b) (draw todo (len + 1) bytes) in
    if len == 5 then dash else if leb max_byte b then retry else next

-- XXXXX-XXXXX
unfoldable pub random_recovery_code : List (Option ℕ) → Result (Str × List (Option ℕ))
unfolding draw
random_recovery_code bytes = draw 11 0 bytes

unfoldable pub generate_codes : (count : ℕ) → List (Option ℕ) → Result (List Str)
unfolding random_recovery_code
generate_codes zero bytes = ok []
generate_codes (suc n) bytes = elim (random_recovery_code bytes) [
  | err e ↦ err e
  | ok (code, rest) ↦ elim (generate_codes n rest) [ err e ↦ err e | ok codes ↦ ok (code ∷ codes) ]
]

unfoldable pub hash_recovery_code : External → Str → Str
hash_recovery_code ext code = ext.sha256_hex (to_upper ext.upper_table (trim_space code))

unfoldable pub stored_codes : External → List Str → List RecoveryCode
stored_codes ext [] = []
stored_codes ext (code ∷ codes) =
    record { hash = hash_recovery_code ext code; used_at = none } ∷ stored_codes ext codes

-- The loop of `ConsumeRecoveryCode`: the first unused code of that hash is marked.
unfoldable pub spend :
    (presented : Str) → (now : ℕ) → List RecoveryCode → Option (List RecoveryCode)
spend presented now [] = none
spend presented now (c ∷ codes) =
    let rest = spend presented now codes in
    if not (is_some c.used_at) && str_eq c.hash presented
    then some (record c { used_at = some now } ∷ codes)
    else elim rest [ none ↦ none | some cs ↦ some (c ∷ cs) ]

unfoldable pub unused : List RecoveryCode → ℕ
unused codes = count (λ c. not (is_some c.used_at)) codes
