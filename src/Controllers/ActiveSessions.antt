-- ===== src/Controllers/ActiveSessions.antt =====
-- http/controllers/sessions.go. `id` is the parameter of the route as it stands in the path.
use goravel_authkit.Base.{ℕ, Bool, List, some}
use goravel_authkit.Text.{Str, lit}
use goravel_authkit.Errors.{Err, Result, ok, err, not_found, validation}
use goravel_authkit.Http.{Platform, Request, ran, W, ◌>>=◌, ◌>>◌, give, attempt, request_user}
use goravel_authkit.Helpers.{session_tracking_token}
use goravel_authkit.Responses.{
  Answer, json, error, message, session_list, internal_error, new_session_list_response,
}
use goravel_authkit.Services.Sessions
use goravel_authkit.Services.Sessions.{SessionView}
use goravel_authkit.Controllers.{cause, Stamp, entry, write_audit, parse_uuid_param}

-- `window` is that of the service.
pub record SessionsController : Type 0 where
  pub guard : Str
  pub audit : Bool
  pub window : ℕ

abbrev pub session_missing : Answer
session_missing = json 404 (error (lit "not_found") (lit "Session not found"))

abbrev pub current_session : Answer
current_session =
    json 400 (error (lit "current_session") (lit "Use logout to end the current session"))

abbrev terminate_error : Err → Answer
terminate_error not_found = session_missing
terminate_error (validation detail) = current_session
terminate_error _ = internal_error

module _ {S : Type 0} (p : Platform S) (sc : SessionsController) where
  -- currentToken
  unfoldable pub current_token : W S Str
  current_token c = ran (session_tracking_token p sc.guard c) c

  -- writeAudit
  unfoldable pub write_session_audit :
      Request → Stamp → (actor : ℕ) → (action : Str) → (resource : Str) → W S (Unit {0})
  unfolding write_audit
  write_session_audit req s actor action resource =
      write_audit sc.audit s
        (record (entry (some actor) action (some resource) req) { resource_type = lit "session" })

  abbrev list_answer : Result (List SessionView) → Answer
  list_answer (err e) = internal_error
  list_answer (ok views) = json 200 (session_list (new_session_list_response p views))

  unfoldable pub index_sessions : (now : ℕ) → W S Answer
  unfolding current_token
  index_sessions now = do
    user ← request_user
    token ← current_token
    r ← attempt (Sessions.list sc.window now user token)
    give (list_answer r)

  abbrev pub terminated : Request → Stamp → (user id : ℕ) → Result (Unit {0}) → W S Answer
  terminated req s user id (err e) = give (terminate_error (cause e))
  terminated req s user id (ok done) = do
    write_session_audit req s user (lit "auth.session_terminated") (p.uuid_string id)
    give (json 200 (message (lit "Session terminated")))

  abbrev pub destroy_at : Request → Stamp → (id : ℕ) → W S Answer
  destroy_at req s id = do
    user ← request_user
    token ← current_token
    r ← attempt (Sessions.terminate user id token)
    terminated req s user id r

  unfoldable pub destroy_session : (id : Str) → Request → Stamp → W S Answer
  unfolding current_token write_session_audit parse_uuid_param cause
  destroy_session id req s = parse_uuid_param p id λ n. destroy_at req s n

  abbrev pub others_terminated : Request → Stamp → (user : ℕ) → Result (Unit {0}) → W S Answer
  others_terminated req s user (err e) = give internal_error
  others_terminated req s user (ok done) = do
    write_session_audit req s user (lit "auth.sessions_terminated_others") (p.uuid_string user)
    give (json 200 (message (lit "Other sessions signed out")))

  unfoldable pub destroy_others : Request → Stamp → W S Answer
  unfolding current_token write_session_audit
  destroy_others req s = do
    user ← request_user
    token ← current_token
    r ← attempt (Sessions.terminate_others user token)
    others_terminated req s user r
