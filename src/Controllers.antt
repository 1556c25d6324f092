-- ===== src/Controllers.antt =====
-- http/controllers/: what the controllers share: how a login is completed, the limit of attempts
-- and the audit trail. The services' errors are answered by status and code.
pub mod Establish
pub mod Completed
pub mod Auth
pub mod TwoFactor
pub mod Impersonation
pub mod Users
pub mod ActiveSessions
pub mod PersonalTokens
pub mod Overview
use goravel_authkit.Base.{
  ℕ, Bool, true, false, not, ◌&&◌, List, [], ◌∷◌, ◌++◌, Option, none, some, is_some, if◌then◌else◌,
}
use goravel_authkit.Text.{Str, lit, str_eq}
use goravel_authkit.Errors.{Err, Result, ok, err, internal, validation}
use goravel_authkit.Models.{User}
use goravel_authkit.External.{External}
use goravel_authkit.Http.{
  Context, Platform, Request, ran, W, ◌>>=◌, ◌>>◌, give, choose, attempt, with_session, guard_login,
  regenerate_and_persist_session, set_remember_cookie,
}
use goravel_authkit.Helpers.{
  password_changed_at_key, two_factor_user_id_key, remember_intent_key, session_tracking_token_key,
  new_session_token, session_tracking_token,
}
use goravel_authkit.Responses.{Answer, json, error, account, internal_error, new_user_response}
use goravel_authkit.Services.Audit
use goravel_authkit.Services.Audit.{AuditEntry}
use goravel_authkit.Services.Remember
use goravel_authkit.Services.Sessions
use goravel_authkit.Middleware.RateLimit.{RateLimitResult, retry_seconds}

-- What the code looks at in an error: the sentinel behind the joins.
unfoldable pub cause : Err → Err
cause (internal e) = cause e
cause e = e

-- The text of ErrValidation with its detail, one to a line.
unfoldable pub validation_message : Str → Str
validation_message detail = lit "validation error" ++ 10 ∷ detail

-- What is drawn and read of the clock for an entry of the audit log.
pub record Stamp : Type 0 where
  pub id : ℕ
  pub now : ℕ

-- The parts of an instance that establish a session. `remember` is the lifetime of the cookie;
-- a part that is disabled is `none` or `false`.
pub record SignIn : Type 0 where
  pub guard : Str
  pub audit : Bool
  pub remember : Option ℕ
  pub sessions : Bool

-- What is drawn, and read of the clock, while a session is established.
pub record Draws : Type 0 where
  pub remember : Stamp
  pub selector_bytes : Option (List ℕ)
  pub validator_bytes : Option (List ℕ)
  pub token_bytes : Option (List ℕ)
  pub track : Stamp
  pub audit : Stamp

abbrev pub entry :
    (actor : Option ℕ) → (action : Str) → (resource : Option Str) → Request → AuditEntry
entry actor action resource req = record {
  actor_id = actor;
  actor_email = lit "";
  action = action;
  resource_type = lit "user";
  resource_id = resource;
  metadata = [];
  ip = req.ip;
}

abbrev pub invalid_id : Answer
invalid_id = json 400 (error (lit "invalid_id") (lit "Invalid ID parameter: id"))

abbrev pub or_invalid_id : {S : Type 0} → Option ℕ → (ℕ → W S Answer) → W S Answer
or_invalid_id none go = give invalid_id
or_invalid_id (some id) go = go id

-- ParseUUIDParam of "id", and `if errResp != nil { return *errResp }`.
unfoldable pub parse_uuid_param :
    {S : Type 0} → Platform S → (raw : Str) → (ℕ → W S Answer) → W S Answer
parse_uuid_param p raw go = or_invalid_id (p.uuid_parse raw) go

module _ {S : Type 0} where
  abbrev ended {ℓ} : {A : Type ℓ} → A → W S (Unit {0})
  ended a = give tt

  -- A call whose error is at most logged.
  unfoldable pub best_effort {ℓ} : {A : Type ℓ} → W S A → W S (Unit {0})
  best_effort m = m >>= λ a. ended a

  unfoldable pub write_audit : (enabled : Bool) → Stamp → AuditEntry → W S (Unit {0})
  unfolding best_effort
  write_audit enabled s e =
      choose enabled (best_effort (attempt (Audit.log s.id s.now e))) (give tt)

  abbrev refused_by : RateLimitResult → W S (Option Answer)
  refused_by r c =
      ran
        (some (
          json 429 (error (lit "rate_limited") (lit "Too many attempts. Please try again later."))))
        (record c { retry_after = some (retry_seconds r.retry_after) })

  -- enforceRateLimit, with the answer of the limiter: `none` is an error of its store. A value is
  -- the answer to the request.
  unfoldable pub enforce_rate_limit : Option RateLimitResult → W S (Option Answer)
  enforce_rate_limit none = give (
      some (
        json 503 (
          error (lit "rate_limiter_unavailable")
            (lit "Authentication is temporarily unavailable."))))
  enforce_rate_limit (some r) = choose r.allowed (give none) (refused_by r)

  -- `if response != nil { return response }`
  abbrev pub unless_answered : W S Answer → Option Answer → W S Answer
  unless_answered go none = go
  unless_answered go (some a) = give a

  module _ (ext : External) (p : Platform S) where
    abbrev pub keep_cookie : (ttl : ℕ) → Result Str → W S (Unit {0})
    keep_cookie ttl (err e) = give tt
    keep_cookie ttl (ok value) = set_remember_cookie value ttl

    unfoldable pub issue_remember : Option ℕ → Draws → (wanted : Bool) → User → W S (Unit {0})
    issue_remember none d wanted u = give tt
    issue_remember (some ttl) d wanted u =
        choose wanted
          (attempt (
              Remember.issue ext ttl d.remember.id d.remember.now d.selector_bytes d.validator_bytes
                u.id)
            >>= λ value. keep_cookie ttl value)
          (give tt)

    -- The new token of the session, and its row; that of an earlier login is dropped.
    unfoldable pub start_tracking :
        (guard : Str) → Request → Draws → User → (old : Str) → W S (Unit {0})
    unfolding best_effort
    start_tracking guard req d u old = do
      choose (not (str_eq old (lit ""))) (best_effort (attempt (Sessions.forget old))) (give tt)
      with_session (p.put (session_tracking_token_key guard) (new_session_token d.token_bytes))
      best_effort (
          attempt (
            Sessions.track d.track.id d.track.now (new_session_token d.token_bytes) u.id req.ip
              req.user_agent))

    unfoldable pub track_login : SignIn → Request → Draws → User → W S (Unit {0})
    unfolding start_tracking
    track_login i req d u c =
        choose (i.sessions && is_some c.session)
          (start_tracking i.guard req d u (session_tracking_token p i.guard c)) (give tt) c

    abbrev pub stamped : (guard : Str) → User → S → S
    stamped guard u s =
        p.put (password_changed_at_key guard) (p.format_stamp u.password_changed_at) s

    abbrev pub settled : (guard : Str) → User → S → S
    settled guard u s =
        p.forget (remember_intent_key guard)
          (p.forget (two_factor_user_id_key guard) (stamped guard u s))

    unfoldable pub audit_login : SignIn → Request → Draws → (action : Str) → User → W S (Unit {0})
    unfolding write_audit
    audit_login i req d action u =
        write_audit i.audit d.audit
          (record (entry (some u.id) action (some (p.uuid_string u.id)) req) {
            actor_email = u.email;
          })

    -- completeLogin, from the login at the guard on.
    unfoldable pub establish : SignIn → Request → Draws → (want_remember : Bool) → User → W S Answer
    establish i req d want_remember u = do
      regenerate_and_persist_session p
      with_session (settled i.guard u)
      issue_remember i.remember d want_remember u
      track_login i req d u
      audit_login i req d (lit "auth.login") u
      give (json 200 (account (new_user_response p u)))

    unfoldable pub complete_login :
        SignIn → Request → Draws → (want_remember : Bool) → User → W S Answer
    complete_login i req d want_remember u = do
      established ← guard_login p i.guard u.id
      choose established (establish i req d want_remember u) (give internal_error)
