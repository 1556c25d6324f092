-- ===== src/Middleware/Sessions.antt =====
-- http/middleware/: authenticated.go over the session of a request, track_session.go,
-- impersonation.go and remember.go; RateLimitByIP of rate_limit.go.
pub mod SignedIn
pub mod Restored
pub mod Tracked
use goravel_authkit.Base.{
  ℕ, Bool, true, false, not, ◌&&◌, List, Option, none, some, ◌==◌, if◌then◌else◌, is_some,
}
use goravel_authkit.Text.{Str, lit, str_eq, trim_space}
use goravel_authkit.Errors.{Result, ok, err}
use goravel_authkit.Models.{User, is_disabled}
use goravel_authkit.External.{External}
use goravel_authkit.Http.{
  Context, Platform, Request, ran, W, ◌>>=◌, ◌>>◌, give, choose, attempt, with_session, guard_login,
  guard_logout, regenerate_and_persist_session, clear_remember_cookie, set_remember_cookie,
  session_user, stored,
}
use goravel_authkit.Helpers.{
  password_changed_at_key, session_tracking_token, guard_user_id, is_impersonating,
}
use goravel_authkit.Repositories.Users
use goravel_authkit.Services.Remember
use goravel_authkit.Services.Sessions
use goravel_authkit.Middleware.Guards.{
  Decision, next, abort, Effect, keep_session, log_out, log_out_and_forget_stamp, authenticated,
}
use goravel_authkit.Middleware.RateLimit.{RateLimitResult, retry_seconds}
use goravel_authkit.Controllers.{
  SignIn, Draws, Stamp, best_effort, stamped, track_login, audit_login,
}

-- A middleware lets a request pass, or answers it by a status and a code.
pub data Passage : Type 0 where
  passed : Passage
  aborted : (status : ℕ) → (code : Str) → Passage

-- RateLimitByIP, with the answer of the limiter: `none` is an error of its store.
unfoldable pub rate_limit_by_ip : {S : Type 0} → Option RateLimitResult → W S Passage
rate_limit_by_ip none = give (aborted 503 (lit "rate_limiter_unavailable"))
rate_limit_by_ip (some r) = choose r.allowed (give passed) (λ c.
    ran (aborted 429 (lit "rate_limited"))
      (record c { retry_after = some (retry_seconds r.retry_after) }))

module _ {S : Type 0} (p : Platform S) where
  abbrev stamp_in : (guard : Str) → Option S → Option (Option Str)
  stamp_in guard none = none
  stamp_in guard (some s) = some (p.get (password_changed_at_key guard) s)

  -- The stamp of the password in the session, if there is a session.
  abbrev pub stamp_of : (guard : Str) → Context S → Option (Option Str)
  stamp_of guard c = stamp_in guard c.session

  unfoldable pub take_effect : (guard : Str) → Effect → W S (Unit {0})
  take_effect guard keep_session = give tt
  take_effect guard log_out = guard_logout p guard
  take_effect guard log_out_and_forget_stamp =
      guard_logout p guard >> with_session (p.forget (password_changed_at_key guard))

  abbrev decided : (guard : Str) → Result Decision → W S Passage
  decided guard (err e) = give (aborted 401 (lit "unauthorized"))
  decided guard (ok (next who)) = λ c. ran passed (record c { auth_user_id = who.user_id })
  decided guard (ok (abort effect status code)) =
      take_effect guard effect >> give (aborted status code)

  -- Authenticated
  unfoldable pub authenticate_session : (guard : Str) → W S Passage
  unfolding take_effect
  authenticate_session guard c =
      (attempt (authenticated p.format_stamp (guard_user_id p guard c) (stamp_of guard c)) >>= λ d.
      decided guard d)
        c

  abbrev pub if_alive : (guard : Str) → Result Bool → W S Passage
  if_alive guard (err e) = give passed
  if_alive guard (ok true) = give passed
  if_alive guard (ok false) = guard_logout p guard >> give (aborted 401 (lit "session_terminated"))

  -- TrackSession; `now` is the time of the touch.
  unfoldable pub track_session : (guard : Str) → (now : ℕ) → W S Passage
  track_session guard now c =
      choose (is_some c.session)
        (attempt (Sessions.touch now (session_tracking_token p guard c)) >>= λ alive.
          if_alive guard alive)
        (give passed) c

  unfoldable pub reject_while_impersonating : (guard : Str) → W S Passage
  reject_while_impersonating guard c =
      choose (is_impersonating p guard c) (give (aborted 403 (lit "impersonation_forbidden")))
        (give passed) c

  -- UnlessBearer around a middleware.
  unfoldable pub unless_bearer : (header : Str) → W S Passage → W S Passage
  unless_bearer header inner =
      choose (not (str_eq (trim_space header) (lit ""))) (give passed) inner

  module _ (ext : External) (i : SignIn) (ttl : ℕ) where
    abbrev pub closed : W S Passage
    closed = clear_remember_cookie >> give passed

    -- The account is gone or locked.
    unfoldable pub close_remembered : (user : ℕ) → W S Passage
    unfolding best_effort
    close_remembered user = do
      guard_logout p i.guard
      best_effort (attempt (Remember.revoke_all_for_user user))
      closed

    unfoldable pub restore : Request → Draws → (rotated : Str) → User → W S Passage
    restore req d rotated u = do
      with_session (stamped ext p i.guard u)
      regenerate_and_persist_session p
      track_login ext p i req d u
      choose (not (str_eq rotated (lit ""))) (set_remember_cookie rotated ttl) (give tt)
      audit_login ext p i req d (lit "auth.login_remember") u
      give passed

    abbrev pub restored_row :
        Request → Draws → (user : ℕ) → (rotated : Str) → Result (Option User) → W S Passage
    restored_row req d user rotated (err e) = close_remembered user
    restored_row req d user rotated (ok none) = close_remembered user
    restored_row req d user rotated (ok (some u)) =
        choose (is_disabled u) (close_remembered user) (restore req d rotated u)

    abbrev pub resolved : Request → Draws → Result (ℕ × Str) → W S Passage
    resolved req d (err e) = closed
    resolved req d (ok (user, rotated)) = do
      established ← guard_login p i.guard user
      choose established
          (attempt (Users.find_by_id user) >>= λ row. restored_row req d user rotated row) closed

    -- RememberLogin: `now` and `bytes` are for Resolve.
    unfoldable pub remember_login :
        Request → Draws → (now : ℕ) → (bytes : Option (List ℕ)) → W S Passage
    unfolding close_remembered restore
    remember_login req d now bytes c =
        choose (is_some (session_user p i.guard c)) (give passed)
          (choose (str_eq req.remember_cookie (lit "")) (give passed) (
            attempt (Remember.resolve ext ttl req.remember_cookie now bytes) >>= λ r.
            resolved req d r))
          c
