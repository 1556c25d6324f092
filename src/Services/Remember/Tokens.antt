-- ===== src/Services/Remember/Tokens.antt =====
-- services/remember.go: the cookie value, written and read.
use goravel_authkit.Base.{◌≡◌, refl, false, some}
use goravel_authkit.Text.{Str, lit, str_eq, contains_rune}
use goravel_authkit.Text.Laws.{cut-append}
use goravel_authkit.Services.Remember.{join_token, split_token}

-- A cookie value splits into the parts that it was joined from, if both are there and the selector
-- has no colon.
pub split_token-join_token :
    (selector validator : Str)
    → contains_rune selector b':' ≡ false
    → str_eq selector (lit "") ≡ false
    → str_eq validator (lit "") ≡ false
    → split_token (join_token selector validator) ≡ some (selector, validator)
unfolding split_token join_token
split_token-join_token selector validator plain s v =
    rw (cut-append selector validator b':' plain, split_token, s, v) refl
