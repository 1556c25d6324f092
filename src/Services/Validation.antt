-- ===== src/Services/Validation.antt =====
-- services/validation.go, and the normalisation and password rules that the services share
-- (services/auth.go, services/users.go).
use goravel_authkit.Base.{ℕ, Bool, false, ◌||◌, Option, none, some, ltb, if◌then◌else◌, length}
use goravel_authkit.Text.{Str, lit, str_eq, trim_space, to_lower, byte_len, contains_rune}
use goravel_authkit.Errors.{validation, Result, ok, err}
use goravel_authkit.External.{External}

abbrev pub max_email_bytes : ℕ
max_email_bytes = 254

abbrev pub default_min_password_length : ℕ
default_min_password_length = 8

-- bcrypt's limit.
abbrev pub max_password_bytes : ℕ
max_password_bytes = 72

-- `minPwLen <= 0` selects the default; a negative length is given as 0.
unfoldable pub min_length_or_default : ℕ → ℕ
min_length_or_default n = if ltb 0 n then n else default_min_password_length

unfoldable pub normalize_email : External → Str → Str
normalize_email ext email = to_lower ext.lower_table (trim_space email)

abbrev same_address : Option Str → Str → Bool
same_address none email = false
same_address (some address) email = str_eq address email

unfoldable pub validate_email : External → Str → Result (Unit {0})
validate_email ext email =
    if str_eq email (lit "")
    then err (validation (lit "email is required"))
    else if ltb max_email_bytes (byte_len email)
        || (contains_rune email 13 || contains_rune email 10)
    then err (validation (lit "email is invalid"))
    else if same_address (ext.parse_address email) email
    then ok tt
    else err (validation (lit "email is invalid"))

unfoldable pub validate_password : Str → ℕ → Result (Unit {0})
validate_password password min_len =
    if str_eq (trim_space password) (lit "")
    then err (validation (lit "password is required"))
    else if ltb (length password) min_len
    then err (validation (lit "password is too short"))
    else if ltb max_password_bytes (byte_len password)
    then err (validation (lit "password is too long"))
    else ok tt
