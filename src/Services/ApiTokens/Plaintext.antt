-- ===== src/Services/ApiTokens/Plaintext.antt =====
-- services/api_tokens.go: the plaintext of a token.
use goravel_authkit.Base.{
  ℕ, Bool, false, ◌&&◌, List, ◌∷◌, ◌++◌, Option, none, some, ◌==◌, if◌then◌else◌, length,
}
use goravel_authkit.Text.{Str, lit, cut, has_prefix, trim_prefix, contains_rune}
use goravel_authkit.Text.Base64.{encode, decode}
use goravel_authkit.Errors.{driver, Result, ok, err}

abbrev pub api_token_selector_bytes : ℕ
api_token_selector_bytes = 12

abbrev pub api_token_validator_bytes : ℕ
api_token_validator_bytes = 32

abbrev pub api_token_prefix : Str
api_token_prefix = lit "gak_"

-- `bytes` is what rand.Read gives, `none` its failure.
unfoldable pub random_api_token_part : Option (List ℕ) → Result Str
random_api_token_part none = err (driver (lit "rand"))
random_api_token_part (some bytes) = ok (encode bytes)

unfoldable pub join_api_token : (selector validator : Str) → Str
join_api_token selector validator = api_token_prefix ++ (selector ++ b'.' ∷ validator)

abbrev decodes_to : Option (List ℕ) → ℕ → Bool
decodes_to none n = false
decodes_to (some bytes) n = length bytes == n

abbrev checked_parts : Option (Str × Str) → Option (Str × Str)
checked_parts none = none
checked_parts (some (selector, validator)) =
    if contains_rune validator b'.'
    then none
    else if decodes_to (decode selector) api_token_selector_bytes
        && decodes_to (decode validator) api_token_validator_bytes
    then some (selector, validator)
    else none

unfoldable pub split_api_token : Str → Option (Str × Str)
split_api_token value =
    if has_prefix value api_token_prefix
    then checked_parts (cut (trim_prefix value api_token_prefix) b'.')
    else none
