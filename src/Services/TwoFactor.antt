-- ===== src/Services/TwoFactor.antt =====
-- services/twofactor.go: enrolment, TOTP codes that are good once, recovery codes.
pub mod Recovery
pub mod Codes
pub mod Replay
pub mod Enrolment
pub mod CodeShape
pub mod Spending
pub mod Attempts
use goravel_authkit.Base.{
  ℕ, zero, suc, ◌+◌, ◌-◌, ◌*◌, ◌/◌, ◌%◌, Bool, true, false, not, ◌&&◌, List, [], ◌∷◌, ◌++◌, Option,
  none, some, ltb, leb, ◌==◌, if◌then◌else◌, is_some, length,
}
use goravel_authkit.Text.{Str, lit, str_eq, trim_space, to_upper}
use goravel_authkit.Errors.{
  Err, not_found, two_factor_not_enrolled, two_factor_already_enabled, invalid_code, internal,
  is_two_factor_not_enrolled, Result, ok, err,
}
use goravel_authkit.Models.{User, RecoveryCode, two_factor_enabled, is_set}
use goravel_authkit.External.{External}
use goravel_authkit.Store.{
  Db, Outcome, done, fail, M, ◌>>=◌, ◌>>◌, check, lift, or_internal, branch,
}
use goravel_authkit.Repositories.Users
use Recovery.{generate_codes, stored_codes, spend, hash_recovery_code, unused}

abbrev pub totp_period_seconds : ℕ
totp_period_seconds = 30

abbrev pub default_recovery_code_count : ℕ
default_recovery_code_count = 8

abbrev pub second : ℕ
second = 1_000_000_000

-- The issuer and the number of recovery codes, with their defaults.
unfoldable pub new_two_factor : Str → ℕ → Str × ℕ
new_two_factor issuer count = (
  if str_eq (trim_space issuer) (lit "") then lit "goravel-authkit" else issuer,
  if ltb 0 count then count else default_recovery_code_count,
)

abbrev pub or_fail : Option User → Err → M User
or_fail none e = fail e
or_fail (some u) e = done u

-- *user.TwoFactorSecret, read only where the secret is set.
abbrev pub text_of : Option Str → Str
text_of none = lit ""
text_of (some s) = s

-- time.Unix((t.Unix() / 30) * 30, 0)
unfoldable pub step_start : ℕ → ℕ
step_start t = t / second / totp_period_seconds * totp_period_seconds * second

abbrev same_code : Option Str → Str → Bool
same_code none code = false
same_code (some candidate) code = str_eq candidate code

-- The loop of `matchTOTPStep` over the instants that it tries.
unfoldable pub match_at : External → (secret code : Str) → List ℕ → Option ℕ
unfolding step_start
match_at ext secret code [] = none
match_at ext secret code (t ∷ ts) =
    let rest = match_at ext secret code ts in
    if same_code (ext.totp_code secret t) code then some (step_start t) else rest

unfoldable pub match_totp_step : External → (secret code : Str) → (now : ℕ) → Option ℕ
unfolding match_at
match_totp_step ext secret code now =
    let period = totp_period_seconds * second in
    match_at ext secret (trim_space code) (now ∷ (now - period) ∷ (now + period) ∷ [])

-- u.TwoFactorLastUsedAt == nil || stepStart.After(*u.TwoFactorLastUsedAt)
abbrev pub is_fresh : Option ℕ → ℕ → Bool
is_fresh none step = true
is_fresh (some used) step = ltb used step

-- What the closure of `VerifyLoginCode` makes of a matched step.
unfoldable pub accept_step : User → Option ℕ → Bool × User
accept_step u none = (false, u)
accept_step u (some step) =
    if is_fresh u.two_factor_last_used_at step
    then (true, record u { two_factor_last_used_at = some step })
    else (false, u)

-- Errors that are ErrTwoFactorNotEnrolled pass; others are joined with ErrInternal.
unfoldable pub enrolled_or_internal {ℓ} : {A : Type ℓ} → Outcome A → Outcome A
enrolled_or_internal (done a db) = done a db
enrolled_or_internal (fail e db) = fail (if is_two_factor_not_enrolled e then e else internal e) db

module _ (ext : External) where
  -- The secret and the URL. `nonce` is the crypter's.
  unfoldable pub enable : (issuer : Str) → (seed nonce id : ℕ) → M (Str × Str)
  enable issuer seed nonce id = do
    row ← or_internal (Users.find_by_id id)
    u ← or_fail row not_found
    check (not (two_factor_enabled u)) two_factor_already_enabled
    key ← or_internal (lift (ext.totp_generate seed issuer u.email))
    enc ← or_internal (lift (ext.encrypt nonce key.0))
    _ ← or_internal (Users.update_two_factor id (some enc) none none)
    done key

  -- Plaintext codes and their encrypted store.
  unfoldable pub generate_recovery_codes :
      (count nonce : ℕ) → (random : List (Option ℕ)) → Result (List Str × Str)
  generate_recovery_codes count nonce random = elim (generate_codes count random) [
    | err e ↦ err e
    | ok plain ↦ elim (ext.marshal_codes (stored_codes ext plain)) [
      | err e ↦ err e
      | ok json ↦ elim (ext.encrypt nonce json) [ err e ↦ err e | ok enc ↦ ok (plain, enc) ]
    ]
  ]

  unfoldable pub confirm :
      (count nonce now id : ℕ) → (random : List (Option ℕ)) → (code : Str) → M (List Str)
  confirm count nonce now id random code = do
    row ← or_internal (Users.find_by_id id)
    u ← or_fail row not_found
    check (is_set u.two_factor_secret) two_factor_not_enrolled
    check (not (two_factor_enabled u)) two_factor_already_enabled
    secret ← or_internal (lift (ext.decrypt (text_of u.two_factor_secret)))
    check (ext.totp_validate (trim_space code) secret now) invalid_code
    codes ← or_internal (lift (generate_recovery_codes count nonce random))
    _ ← or_internal (Users.update_two_factor id u.two_factor_secret (some codes.1) (some now))
    done codes.0

  -- Without protection against replay.
  unfoldable pub verify : Option User → (code : Str) → (now : ℕ) → M Bool
  verify row code now = do
    u ← or_fail row two_factor_not_enrolled
    check (two_factor_enabled u) two_factor_not_enrolled
    secret ← or_internal (lift (ext.decrypt (text_of u.two_factor_secret)))
    done (ext.totp_validate (trim_space code) secret now)

  unfoldable pub verify_login_code : (now id : ℕ) → (code : Str) → M Bool
  verify_login_code now id code db = enrolled_or_internal (
      Users.mutate_locked id
        (λ u.
          check (two_factor_enabled u) two_factor_not_enrolled
          >> (lift (ext.decrypt (text_of u.two_factor_secret))
              >>= (λ secret. done (accept_step u (match_totp_step ext secret code now)))))
        db)

  unfoldable pub decode_recovery_codes : Str → Result (List RecoveryCode)
  decode_recovery_codes enc = elim (ext.decrypt enc) [
    | err e ↦ err e
    | ok json ↦ ext.unmarshal_codes json
  ]

  unfoldable pub encode_recovery_codes : (nonce : ℕ) → List RecoveryCode → Result Str
  encode_recovery_codes nonce codes = elim (ext.marshal_codes codes) [
    | err e ↦ err e
    | ok json ↦ ext.encrypt nonce json
  ]

  abbrev pub store_spent : (nonce : ℕ) → User → Option (List RecoveryCode) → M (Bool × User)
  store_spent nonce u none = done (false, u)
  store_spent nonce u (some codes) =
      lift (encode_recovery_codes nonce codes)
      >>= (λ enc. done (true, record u { two_factor_recovery_codes = some enc }))

  unfoldable pub consume_recovery_code : (nonce now id : ℕ) → (code : Str) → M Bool
  consume_recovery_code nonce now id code db = enrolled_or_internal (
      Users.mutate_locked id
        (λ u.
          check (two_factor_enabled u && is_some u.two_factor_recovery_codes)
            two_factor_not_enrolled
          >> (lift (decode_recovery_codes (text_of u.two_factor_recovery_codes))
              >>= (λ codes. store_spent nonce u (spend (hash_recovery_code ext code) now codes))))
        db)

  unfoldable pub disable : (id : ℕ) → M (Unit {0})
  disable id = do
    row ← or_internal (Users.find_by_id id)
    _ ← or_fail row not_found
    or_internal (Users.update_two_factor id none none none)

  unfoldable pub remaining_recovery_codes : (id : ℕ) → M ℕ
  remaining_recovery_codes id = do
    row ← or_internal (Users.find_by_id id)
    u ← or_fail row two_factor_not_enrolled
    check (two_factor_enabled u && is_some u.two_factor_recovery_codes) two_factor_not_enrolled
    codes ← or_internal (lift (decode_recovery_codes (text_of u.two_factor_recovery_codes)))
    done (unused codes)

  unfoldable pub regenerate_recovery_codes :
      (count nonce id : ℕ) → (random : List (Option ℕ)) → M (List Str)
  regenerate_recovery_codes count nonce id random = do
    row ← or_internal (Users.find_by_id id)
    u ← or_fail row two_factor_not_enrolled
    check (two_factor_enabled u) two_factor_not_enrolled
    codes ← or_internal (lift (generate_recovery_codes count nonce random))
    _ ←
        or_internal
          (Users.update_two_factor id u.two_factor_secret (some codes.1) u.two_factor_confirmed_at)
    done codes.0
