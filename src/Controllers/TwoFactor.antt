-- ===== src/Controllers/TwoFactor.antt =====
-- http/controllers/twofactor.go. A body that cannot be bound is `none`.
pub mod Challenge
use goravel_authkit.Base.{ℕ, Bool, true, false, not, List, Option, none, some, ◌==◌, if◌then◌else◌}
use goravel_authkit.Text.{Str, lit, str_eq, trim_space}
use goravel_authkit.Errors.{
  Err, Result, ok, err, invalid_code, two_factor_already_enabled, two_factor_not_enrolled,
  not_found,
}
use goravel_authkit.Models.{User}
use goravel_authkit.External.{External}
use goravel_authkit.Http.{
  Context, Platform, Request, ran, W, ◌>>=◌, ◌>>◌, give, choose, attempt, request_user,
  session_value,
}
use goravel_authkit.Helpers.{two_factor_user_id_key, remember_intent_key}
use goravel_authkit.Responses.{
  Answer, json, error, message, two_factor_enrollment, recovery_codes, recovery_codes_status,
  internal_error, invalid_body, TwoFactorChallengeRequest,
}
use goravel_authkit.Services.Users
use goravel_authkit.Services.Auth
use goravel_authkit.Services.TwoFactor
use goravel_authkit.Middleware.RateLimit.{RateLimitResult}
use goravel_authkit.Controllers.{
  cause, Stamp, SignIn, Draws, entry, write_audit, enforce_rate_limit, unless_answered,
  complete_login,
}

-- What is drawn, and read of the clock, by the operations of the service.
pub record CodeDraws : Type 0 where
  pub now : ℕ
  pub nonce : ℕ

abbrev pub unauthorized : (text : Str) → Answer
unauthorized text = json 401 (error (lit "unauthorized") text)

abbrev pub no_challenge : Answer
no_challenge = unauthorized (lit "no pending two-factor challenge")

abbrev pub wrong_code : Answer
wrong_code = json 401 (error (lit "invalid_code") (lit "Invalid two-factor code"))

abbrev service_answer : Err → Answer
service_answer invalid_code = json 400 (error (lit "invalid_code") (lit "Invalid two-factor code"))
service_answer two_factor_already_enabled =
    json 409 (error (lit "already_enabled") (lit "Two-factor is already enabled"))
service_answer two_factor_not_enrolled =
    json 409 (error (lit "not_enrolled") (lit "Two-factor is not enrolled"))
service_answer not_found = json 404 (error (lit "not_found") (lit "User not found"))
service_answer _ = internal_error

-- mapError
unfoldable pub map_error : Err → Answer
unfolding cause
map_error e = service_answer (cause e)

module _ {S : Type 0} (ext : External) (p : Platform S) (i : SignIn) where
  -- writeAudit
  unfoldable pub write_audit_of : Request → Stamp → (actor : ℕ) → (action : Str) → W S (Unit {0})
  unfolding write_audit
  write_audit_of req s actor action =
      write_audit i.audit s (entry (some actor) action (some (p.uuid_string actor)) req)

  abbrev parsed : Option Str → ℕ
  parsed none = 0
  parsed (some raw) = elim (p.uuid_parse raw) [ none ↦ 0 | some id ↦ id ]

  -- The user of the challenge that is pending, 0 for none.
  unfoldable pub pending_user : Context S → ℕ
  pending_user c = parsed (session_value p (two_factor_user_id_key i.guard) c)

  abbrev is_intent : Option Str → Bool
  is_intent none = false
  is_intent (some raw) = str_eq raw (lit "1")

  unfoldable pub wants_remember : Context S → Bool
  wants_remember c = is_intent (session_value p (remember_intent_key i.guard) c)

  -- The code decides, or else the recovery code; `none` if neither is there.
  unfoldable pub verify_challenge :
      CodeDraws → (id : ℕ) → TwoFactorChallengeRequest → W S (Option (Result Bool))
  verify_challenge d id body =
      choose (not (str_eq (trim_space body.code) (lit "")))
        (attempt (TwoFactor.verify_login_code ext d.now id body.code) >>= λ r. give (some r))
        (choose (not (str_eq (trim_space body.recovery_code) (lit "")))
          (attempt (TwoFactor.consume_recovery_code ext d.nonce d.now id body.recovery_code)
            >>= λ r. give (some r))
          (give none))

  abbrev remembered : Request → Draws → User → W S Answer
  remembered req l u c = complete_login ext p i req l (wants_remember c) u c

  unfoldable pub challenge_answer :
      Request → Draws → (id : ℕ) → User → Option (Result Bool) → W S Answer
  unfolding write_audit_of wants_remember map_error
  challenge_answer req l id u none =
      give (json 400 (error (lit "validation_error") (lit "A code or recoveryCode is required")))
  challenge_answer req l id u (some (err e)) = give (map_error e)
  challenge_answer req l id u (some (ok false)) = do
    write_audit_of req l.audit id (lit "auth.two_factor_failed")
    give wrong_code
  challenge_answer req l id u (some (ok true)) = remembered req l u

  unfoldable pub challenge_user :
      TwoFactorChallengeRequest → Request → Draws → CodeDraws → (id : ℕ) → Result User → W S Answer
  unfolding challenge_answer verify_challenge
  challenge_user body req l d id (err e) = give no_challenge
  challenge_user body req l d id (ok u) = do
    verdict ← verify_challenge d id body
    challenge_answer req l id u verdict

  abbrev challenge_body :
      Option TwoFactorChallengeRequest → Request → Draws → CodeDraws → (id : ℕ) → W S Answer
  challenge_body none req l d id = give invalid_body
  challenge_body (some body) req l d id =
      attempt (Users.get_by_id id) >>= λ found. challenge_user body req l d id found

  abbrev read_pending : W S ℕ
  read_pending c = ran (pending_user c) c

  unfoldable pub challenge :
      Option TwoFactorChallengeRequest
      → Option RateLimitResult
      → Request
      → Draws
      → CodeDraws
      → W S Answer
  unfolding challenge_user pending_user
  challenge body limit req l d = do
    id ← read_pending
    choose (id == 0) (give no_challenge) (
        enforce_rate_limit limit >>= λ answered.
        unless_answered (challenge_body body req l d id) answered)

  -- An operation of the account that is signed in, its audit entry, and its answer.
  abbrev managed :
      {A : Type 0}
      → Request
      → Stamp
      → (id : ℕ) → (action : Str) → (A → Answer)
      → Result A
      → W S Answer
  managed req s id action respond (err e) = give (map_error e)
  managed req s id action respond (ok a) = write_audit_of req s id action >> give (respond a)

  abbrev enrollment : Str × Str → Answer
  enrollment (secret, url) = json 200 (two_factor_enrollment secret url)

  unfoldable pub enable : (issuer : Str) → (seed nonce : ℕ) → Request → Stamp → W S Answer
  unfolding write_audit_of map_error
  enable issuer seed nonce req s = do
    id ← request_user
    r ← attempt (TwoFactor.enable ext issuer seed nonce id)
    managed req s id (lit "auth.two_factor_enrolled") enrollment r

  abbrev shown : List Str → Answer
  shown codes = json 200 (recovery_codes codes)

  unfoldable pub confirm :
      (count nonce now : ℕ)
      → (random : List (Option ℕ)) → (code : Option Str) → Request
      → Stamp
      → W S Answer
  unfolding write_audit_of map_error
  confirm count nonce now random none req s = give invalid_body
  confirm count nonce now random (some code) req s = do
    id ← request_user
    r ← attempt (TwoFactor.confirm ext count nonce now id random code)
    managed req s id (lit "auth.two_factor_confirmed") shown r

  abbrev disabled : Unit {0} → Answer
  disabled done = json 200 (message (lit "Two-factor disabled"))

  abbrev disable_confirmed : Request → Stamp → (id : ℕ) → Result User → W S Answer
  disable_confirmed req s id (err e) = give (unauthorized (lit "Password confirmation failed"))
  disable_confirmed req s id (ok u) = do
    r ← attempt (TwoFactor.disable ext id)
    managed req s id (lit "auth.two_factor_disabled") disabled r

  -- The password of the account is asked for again.
  abbrev disable_user : Request → Stamp → (id : ℕ) → (password : Str) → Result User → W S Answer
  disable_user req s id password (err e) = give (map_error e)
  disable_user req s id password (ok u) = do
    confirmed ← attempt (Auth.authenticate ext u.email password)
    disable_confirmed req s id confirmed

  unfoldable pub disable : (password : Option Str) → Request → Stamp → W S Answer
  unfolding write_audit_of map_error
  disable none req s = give invalid_body
  disable (some password) req s = do
    id ← request_user
    found ← attempt (Users.get_by_id id)
    disable_user req s id password found

  abbrev remaining_answer : Result ℕ → Answer
  remaining_answer (err e) = map_error e
  remaining_answer (ok n) = json 200 (recovery_codes_status n)

  unfoldable pub recovery_codes_left : W S Answer
  unfolding map_error
  recovery_codes_left = do
    id ← request_user
    r ← attempt (TwoFactor.remaining_recovery_codes ext id)
    give (remaining_answer r)

  unfoldable pub regenerate_recovery_codes :
      (count nonce : ℕ) → (random : List (Option ℕ)) → Request → Stamp → W S Answer
  unfolding write_audit_of map_error
  regenerate_recovery_codes count nonce random req s = do
    id ← request_user
    r ← attempt (TwoFactor.regenerate_recovery_codes ext count nonce id random)
    managed req s id (lit "auth.two_factor_recovery_regenerated") shown r
