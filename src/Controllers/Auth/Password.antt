-- ===== src/Controllers/Auth/Password.antt =====
-- http/controllers/auth.go: ChangePassword, which also closes the other ways into the account. A
-- body that cannot be bound is `none`.
pub mod Shut
use goravel_authkit.Base.{ℕ, Bool, ◌&&◌, Option, none, some, ◌==◌}
use goravel_authkit.Text.{lit}
use goravel_authkit.Errors.{Result, ok, err}
use goravel_authkit.External.{External}
use goravel_authkit.Http.{
  Platform, Request, W, ◌>>=◌, ◌>>◌, give, choose, attempt, with_session, clear_remember_cookie,
  request_user,
}
use goravel_authkit.Helpers.{password_changed_at_key}
use goravel_authkit.Responses.{
  Answer, json, message, invalid_body, authentication_required, ChangePasswordRequest,
}
use goravel_authkit.Services.Auth
use goravel_authkit.Services.Remember
use goravel_authkit.Services.Sessions
use goravel_authkit.Services.ApiTokens
use goravel_authkit.Middleware.RateLimit.{RateLimitResult}
use goravel_authkit.Controllers.{Stamp, best_effort, enforce_rate_limit, unless_answered}
use goravel_authkit.Controllers.Auth.{
  AuthController, map_service_error, guard, write_audit_id, read_token,
}

-- What is read of the clock and drawn by ChangePassword.
pub record PasswordDraws : Type 0 where
  pub salt : ℕ
  pub now : ℕ
  pub revoked_at : ℕ
  pub audit : Stamp

module _ {S : Type 0} (ext : External) (p : Platform S) (ac : AuthController) where
  -- The other ways in are closed: remember tokens, tracked sessions, API tokens.
  unfoldable pub revoke_remember : Option ℕ → (id : ℕ) → W S (Unit {0})
  unfolding best_effort
  revoke_remember none id = give tt
  revoke_remember (some ttl) id = do
    best_effort (attempt (Remember.revoke_all_for_user id))
    clear_remember_cookie

  unfoldable pub terminate_others : (enabled : Bool) → (id : ℕ) → W S (Unit {0})
  unfolding best_effort
  terminate_others enabled id =
      choose enabled
        (read_token ext p ac >>= λ token.
          best_effort (attempt (Sessions.terminate_others id token)))
        (give tt)

  unfoldable pub revoke_api_tokens : (enabled : Bool) → (id now : ℕ) → W S (Unit {0})
  unfolding best_effort
  revoke_api_tokens enabled id now =
      choose enabled (best_effort (attempt (ApiTokens.revoke_all id now))) (give tt)

  unfoldable pub password_answer : Request → PasswordDraws → (id : ℕ) → Result ℕ → W S Answer
  unfolding revoke_remember terminate_others revoke_api_tokens write_audit_id
  password_answer req d id (err e) = give (map_service_error e)
  password_answer req d id (ok at) = do
    with_session (p.put (password_changed_at_key (guard ext p ac)) (p.format_stamp at))
    revoke_remember ac.sign_in.remember id
    terminate_others ac.sign_in.sessions id
    revoke_api_tokens (ac.api_tokens && ac.revoke_api_tokens_on_password_change) id d.revoked_at
    write_audit_id ext p ac req d.audit id (lit "auth.password_changed")
    give (json 200 (message (lit "Password changed")))

  unfoldable pub change_password :
      (keeps : ℕ → ℕ)
      → Option ChangePasswordRequest
      → Option RateLimitResult
      → Request
      → PasswordDraws
      → W S Answer
  unfolding password_answer
  change_password keeps none limit req d = give invalid_body
  change_password keeps (some body) limit req d = do
    id ← request_user
    choose (id == 0) (give authentication_required) (
        enforce_rate_limit limit >>= λ answered.
        unless_answered
          (attempt (
              Auth.change_password ext keeps ac.min_pw_len d.salt d.now id body.current_password
                body.new_password)
            >>= λ r. password_answer req d id r)
          answered)
