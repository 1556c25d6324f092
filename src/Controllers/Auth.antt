-- ===== src/Controllers/Auth.antt =====
-- http/controllers/auth.go. A body that cannot be bound is `none`.
pub mod Gate
pub mod Password
use goravel_authkit.Base.{
  ℕ, Bool, true, false, not, ◌&&◌, List, [], ◌∷◌, Option, none, some, ◌==◌, if◌then◌else◌, is_some,
}
use goravel_authkit.Text.{Str, lit, str_eq}
use goravel_authkit.Errors.{
  Err, Result, ok, err, invalid_credentials, wrong_password, validation, already_exists,
  unauthorized,
}
use goravel_authkit.Models.{User, AuditLog, two_factor_enabled, is_disabled}
use goravel_authkit.External.{External}
use goravel_authkit.Http.{
  Context, Platform, Request, ImpersonatorMarker, ran, W, ◌>>=◌, ◌>>◌, give, choose, attempt,
  with_session, guard_logout, regenerate_and_persist_session, clear_remember_cookie, request_user,
}
use goravel_authkit.Helpers.{
  password_changed_at_key, two_factor_user_id_key, remember_intent_key, session_tracking_token_key,
  session_tracking_token, impersonator_of,
}
use goravel_authkit.Responses.{
  Answer, json, error, message, account, two_factor_required, login_history, internal_error,
  invalid_body, authentication_required, new_user_response, new_login_history_response,
  LoginRequest, UpdateProfileRequest, ChangePasswordRequest, ImpersonatorRef, UserResponse,
}
use goravel_authkit.Services.Auth
use goravel_authkit.Services.Audit
use goravel_authkit.Services.Remember
use goravel_authkit.Services.Sessions
use goravel_authkit.Services.ApiTokens
use goravel_authkit.Middleware.RateLimit.{RateLimitResult}
use goravel_authkit.Controllers.{
  cause, validation_message, Stamp, SignIn, Draws, entry, best_effort, write_audit,
  enforce_rate_limit, unless_answered, complete_login,
}

-- A service that is disabled is `none` or `false`.
pub record AuthController : Type 0 where
  pub sign_in : SignIn
  pub two_factor : Bool
  pub api_tokens : Bool
  pub revoke_api_tokens_on_password_change : Bool
  pub min_pw_len : ℕ

abbrev service_answer : Err → Answer
service_answer invalid_credentials =
    json 401 (error (lit "invalid_credentials") (lit "Invalid email or password"))
service_answer wrong_password =
    json 400 (error (lit "wrong_password") (lit "Current password is incorrect"))
service_answer (validation detail) =
    json 400 (error (lit "validation_error") (validation_message detail))
service_answer already_exists = json 409 (error (lit "already_exists") (lit "Email already exists"))
service_answer unauthorized = authentication_required
service_answer _ = internal_error

-- mapServiceError
unfoldable pub map_service_error : Err → Answer
unfolding cause validation_message
map_service_error e = service_answer (cause e)

abbrev pub account_disabled : Answer
account_disabled = json 403 (error (lit "account_disabled") (lit "This account has been disabled"))

abbrev impersonator_ref :
    {S : Type 0} → Platform S → Option ImpersonatorMarker → Option ImpersonatorRef
impersonator_ref p none = none
impersonator_ref p (some m) =
    some (record { guard = m.guard; id = p.uuid_string m.user_id; email = m.email })

module _ {S : Type 0} (ext : External) (p : Platform S) (ac : AuthController) where
  abbrev pub guard : Str
  guard = ac.sign_in.guard

  -- writeAuditAttempt
  unfoldable pub write_audit_attempt : Request → Stamp → (email action : Str) → W S (Unit {0})
  unfolding write_audit
  write_audit_attempt req s email action =
      write_audit ac.sign_in.audit s
        (record (entry none action none req) { metadata = (lit "email", email) ∷ [] })

  -- writeAuditID
  unfoldable pub write_audit_id : Request → Stamp → (actor : ℕ) → (action : Str) → W S (Unit {0})
  unfolding write_audit
  write_audit_id req s actor action =
      write_audit ac.sign_in.audit s (entry (some actor) action (some (p.uuid_string actor)) req)

  abbrev write_user : Request → Stamp → (action : Str) → ℕ → W S (Unit {0})
  write_user req s action id = choose (id == 0) (give tt) (write_audit_id req s id action)

  -- writeAudit; `none` is a user that was not loaded.
  unfoldable pub write_audit_user : Request → Stamp → (action : Str) → Result User → W S (Unit {0})
  unfolding write_audit_id
  write_audit_user req s action (err e) = give tt
  write_audit_user req s action (ok u) = write_user req s action u.id

  -- The first step of a login with two factors: the session has the pending user and stays
  -- unauthenticated.
  unfoldable pub defer_login : (remember : Bool) → User → W S Answer
  defer_login remember u = do
    regenerate_and_persist_session p
    with_session (λ s.
        let pending = p.put (two_factor_user_id_key guard) (p.uuid_string u.id) s in
        if remember then p.put (remember_intent_key guard) (lit "1") pending else pending)
    give (json 200 two_factor_required)

  unfoldable pub finish_login : LoginRequest → Request → Draws → Result User → W S Answer
  unfolding write_audit_attempt defer_login
  finish_login body req d (err e) = do
    write_audit_attempt req d.audit body.email (lit "auth.login_failed")
    give (map_service_error e)
  finish_login body req d (ok u) =
      choose (is_disabled u)
        (write_audit_attempt req d.audit body.email (lit "auth.login_disabled")
          >> give account_disabled)
        (choose (ac.two_factor && two_factor_enabled u) (defer_login body.remember u)
          (complete_login ext p ac.sign_in req d body.remember u))

  unfoldable pub login : Option LoginRequest → Option RateLimitResult → Request → Draws → W S Answer
  unfolding finish_login
  login none limit req d = give invalid_body
  login (some body) limit req d = do
    answered ← enforce_rate_limit limit
    unless_answered
        (attempt (Auth.authenticate ext body.email body.password) >>= λ found.
          finish_login body req d found)
        answered

  -- The remember cookie of this device.
  unfoldable pub drop_remember : Option ℕ → (cookie : Str) → W S (Unit {0})
  unfolding best_effort
  drop_remember none cookie = give tt
  drop_remember (some ttl) cookie = do
    choose (not (str_eq cookie (lit ""))) (best_effort (attempt (Remember.revoke cookie))) (give tt)
    clear_remember_cookie

  unfoldable pub forget_tracking : (enabled : Bool) → (token : Str) → W S (Unit {0})
  unfolding best_effort
  forget_tracking enabled token =
      choose enabled (best_effort (attempt (Sessions.forget token))) (give tt)

  abbrev pub read_token : W S Str
  read_token c = ran (session_tracking_token p guard c) c

  unfoldable pub logout : Request → Stamp → W S Answer
  unfolding drop_remember forget_tracking write_audit_user
  logout req s = do
    id ← request_user
    found ← attempt (Auth.me ext id)
    token ← read_token
    guard_logout p guard
    with_session (λ x.
        p.forget (session_tracking_token_key guard) (p.forget (password_changed_at_key guard) x))
    forget_tracking ac.sign_in.sessions token
    drop_remember ac.sign_in.remember req.remember_cookie
    write_audit_user req s (lit "auth.logout") found
    give (json 200 (message (lit "logged out")))

  abbrev with_impersonator : Option ImpersonatorRef → UserResponse → UserResponse
  with_impersonator by r = record r { impersonated_by = by }

  abbrev current_user : Result User → W S Answer
  current_user (err e) = give authentication_required
  current_user (ok u) = λ c.
      ran
        (json 200 (
          account (
            with_impersonator (impersonator_ref p (impersonator_of p guard c))
              (new_user_response p u))))
        c

  unfoldable pub me : W S Answer
  me = do id ← request_user; found ← attempt (Auth.me ext id); current_user found

  abbrev profile_answer : Request → Stamp → Result (User × Bool) → W S Answer
  profile_answer req s (err e) = give (map_service_error e)
  profile_answer req s (ok (u, changed)) = do
    choose changed (write_audit_user req s (lit "auth.profile_updated") (ok u)) (give tt)
    give (json 200 (account (new_user_response p u)))

  unfoldable pub update_profile : Option UpdateProfileRequest → Request → Stamp → W S Answer
  unfolding write_audit_user map_service_error
  update_profile none req s = give invalid_body
  update_profile (some body) req s = do
    id ← request_user
    choose (id == 0) (give authentication_required)
        (attempt (Auth.update_profile ext id body.email body.name) >>= λ r. profile_answer req s r)

  abbrev history_answer : Result (List AuditLog) → Answer
  history_answer (err e) = internal_error
  history_answer (ok entries) = json 200 (login_history (new_login_history_response p entries))

  unfoldable pub login_history_of : W S Answer
  login_history_of =
      choose ac.sign_in.audit
        (request_user >>= λ id.
          choose (id == 0) (give authentication_required)
            (attempt (Audit.recent_logins id 20) >>= λ r. give (history_answer r)))
        (give (json 200 (login_history [])))
