-- ===== src/Errors.antt =====
-- services/errors.go: the sentinel errors, and what errors.Join puts around them. `errors.Is`
-- looks through a join, so `internal` keeps the joined cause.
use goravel_authkit.Base.{Bool, true, false}
use goravel_authkit.Text.{Str}

pub data Err : Type 0 where
  invalid_credentials wrong_password not_found unauthorized forbidden already_exists : Err
  last_admin two_factor_not_enrolled two_factor_already_enabled invalid_code : Err
  invalid_remember_token invalid_api_token token_limit : Err
  -- ErrValidation joined with a message.
  validation : Str → Err
  -- An error of the driver or of a facade, with its text.
  driver : Str → Err
  -- gorm.ErrRecordNotFound
  record_not_found : Err
  -- errors.Join(ErrInternal, err)
  internal : Err → Err

pub data Result {ℓ} (A : Type ℓ) : Type ℓ where
  ok : A → Result A
  err : Err → Result A

-- errors.Is(e, ErrTwoFactorNotEnrolled)
unfoldable pub is_two_factor_not_enrolled : Err → Bool
is_two_factor_not_enrolled two_factor_not_enrolled = true
is_two_factor_not_enrolled (internal e) = is_two_factor_not_enrolled e
is_two_factor_not_enrolled _ = false

-- errors.Is(e, ErrInvalidAPIToken)
unfoldable pub is_invalid_api_token : Err → Bool
is_invalid_api_token invalid_api_token = true
is_invalid_api_token (internal e) = is_invalid_api_token e
is_invalid_api_token _ = false

-- errors.Is(e, ErrForbidden)
unfoldable pub is_forbidden : Err → Bool
is_forbidden forbidden = true
is_forbidden (internal e) = is_forbidden e
is_forbidden _ = false
