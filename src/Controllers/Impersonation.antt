-- ===== src/Controllers/Impersonation.antt =====
-- http/controllers/impersonation.go. A body that cannot be bound is `none`.
pub mod Switch
pub mod Stop
pub mod Leftover
use goravel_authkit.Base.{
  ℕ, Bool, true, false, not, ◌&&◌, List, [], ◌∷◌, Option, none, some, ◌==◌, if◌then◌else◌, is_some,
}
use goravel_authkit.Text.{Str, lit, str_eq, mem_str}
use goravel_authkit.Errors.{Err, Result, ok, err, is_forbidden}
use goravel_authkit.Models.{User, is_disabled}
use goravel_authkit.External.{External}
use goravel_authkit.Store.{M, query, branch}
use goravel_authkit.Http.{
  Context, Platform, Request, ImpersonatorMarker, ran, W, ◌>>=◌, ◌>>◌, give, choose, attempt,
  with_session, guard_login, guard_logout, regenerate_and_persist_session, request_user,
}
use goravel_authkit.Helpers.{
  or_nil, password_changed_at_key, set_impersonator, impersonator_of, clear_impersonator,
}
use goravel_authkit.Responses.{
  Answer, json, error, message, account, internal_error, authentication_required, new_user_response,
  ImpersonateRequest, UserResponse,
}
use goravel_authkit.Repositories.Users.{select_id, find_by_id}
use goravel_authkit.Services.Impersonation.{Policy, Principal, authorize}
use goravel_authkit.Controllers.{Stamp, entry, write_audit}

-- `guards` are the keys of guardTables. The accounts of this guard are in the database; those of
-- the others are `others`.
pub record ImpersonationController : Type 0 where
  pub guard : Str
  pub guards : List Str
  pub others : Str → List User
  pub gate : Policy
  pub audit : Bool

abbrev bad_request : (text : Str) → Answer
bad_request text = json 400 (error (lit "validation_error") text)

abbrev target_missing : Answer
target_missing = json 404 (error (lit "not_found") (lit "Target user not found"))

-- mapGateError
unfoldable pub map_gate_error : Err → Answer
map_gate_error e =
    if is_forbidden e
    then json 403 (error (lit "forbidden") (lit "You are not allowed to impersonate this user"))
    else internal_error

abbrev pub principal : (guard : Str) → User → Principal
principal guard u = record { guard = guard; user_id = u.id; email = u.email; role = u.role }

module _ {S : Type 0} (p : Platform S) (ic : ImpersonationController) where
  -- c.repo(guard).FindByID
  unfoldable pub find_in : (guard : Str) → (id : ℕ) → M (Option User)
  find_in guard id =
      branch (str_eq guard ic.guard) (find_by_id id) (query (λ t. select_id id (ic.others guard)))

  -- writeAudit
  unfoldable pub write_audit_between :
      Request → Stamp → (actor target : ℕ) → (target_guard action : Str) → W S (Unit {0})
  unfolding write_audit
  write_audit_between req s actor target target_guard action =
      write_audit ic.audit s (record (entry (some actor) action (some (p.uuid_string target)) req) {
        metadata = (lit "actor_guard", ic.guard) ∷ (lit "target_guard", target_guard) ∷ [];
      })

  abbrev pub marker_of : (target_guard : Str) → User → ImpersonatorMarker
  marker_of target_guard actor = record {
    guard = ic.guard;
    user_id = actor.id;
    email = actor.email;
    same_guard = str_eq target_guard ic.guard;
  }

  abbrev pub stamp_session : (guard : Str) → User → S → S
  stamp_session guard u s =
      p.put (password_changed_at_key guard) (p.format_stamp u.password_changed_at) s

  abbrev seen_as : User → UserResponse → UserResponse
  seen_as actor r = record r {
    impersonated_by =
        some (record { guard = ic.guard; id = p.uuid_string actor.id; email = actor.email });
  }

  -- The session becomes the target's, and is marked with the actor.
  unfoldable pub switch_to : Request → Stamp → (guard : Str) → (actor target : User) → W S Answer
  switch_to req s guard actor target = do
    set_impersonator p guard (marker_of guard actor)
    regenerate_and_persist_session p
    with_session (stamp_session guard target)
    write_audit_between req s actor.id target.id guard (lit "auth.impersonation_started")
    give (json 200 (account (seen_as actor (new_user_response p target))))

  abbrev pub permitted :
      Request → Stamp → (guard : Str) → (actor target : User) → Result (Unit {0}) → W S Answer
  permitted req s guard actor target (err e) = give (map_gate_error e)
  permitted req s guard actor target (ok done) = do
    established ← guard_login p guard target.id
    choose established (switch_to req s guard actor target) (give internal_error)

  abbrev pub target_found :
      Request → Stamp → (guard : Str) → (actor : User) → Result (Option User) → W S Answer
  target_found req s guard actor (err e) = give internal_error
  target_found req s guard actor (ok none) = give target_missing
  target_found req s guard actor (ok (some target)) =
      choose (is_disabled target)
        (give
          (json 403 (error (lit "account_disabled") (lit "Cannot impersonate a disabled account"))))
        (permitted req s guard actor target
          (authorize ic.gate (principal ic.guard actor) guard (principal guard target)))

  abbrev pub unless_impersonating : (guard : Str) → W S Answer → W S Answer
  unless_impersonating guard go c =
      choose (is_some (impersonator_of p guard c))
        (give (
          json 409
            (error (lit "already_impersonating") (lit "Already impersonating in this guard"))))
        go c

  unfoldable pub start_at :
      Request → Stamp → (guard : Str) → (id : ℕ) → (actor : User) → (target : ℕ) → W S Answer
  unfolding switch_to write_audit_between map_gate_error
  start_at req s guard id actor target =
      choose (target == 0) (give (bad_request (lit "A valid userId is required"))) (
        choose (not (mem_str ic.guards guard)) (give (bad_request (lit "Unknown guard"))) (
          choose (str_eq guard ic.guard && target == id)
            (give (bad_request (lit "Cannot impersonate yourself")))
            (unless_impersonating guard
              (attempt (find_in guard target) >>= λ row. target_found req s guard actor row))))

  abbrev pub guard_named : Str → Str
  guard_named name = if str_eq name (lit "") then ic.guard else name

  abbrev pub actor_found :
      Option ImpersonateRequest → Request → Stamp → (id : ℕ) → Result (Option User) → W S Answer
  actor_found body req s id (err e) = give authentication_required
  actor_found body req s id (ok none) = give authentication_required
  actor_found none req s id (ok (some actor)) = give (bad_request (lit "Invalid request body"))
  actor_found (some body) req s id (ok (some actor)) =
      start_at req s (guard_named body.guard) id actor (or_nil (p.uuid_parse body.user_id))

  unfoldable pub start : Option ImpersonateRequest → Request → Stamp → W S Answer
  unfolding start_at
  start body req s = do
    id ← request_user
    choose (id == 0) (give authentication_required)
        (attempt (find_in ic.guard id) >>= λ row. actor_found body req s id row)

  -- The session of this guard ends.
  unfoldable pub drop_session : W S (Unit {0})
  drop_session =
      guard_logout p ic.guard >> with_session (p.forget (password_changed_at_key ic.guard))

  -- The marker goes, whichever way the session has been restored.
  unfoldable pub finish_stop : Request → Stamp → ImpersonatorMarker → (target : ℕ) → W S Answer
  unfolding write_audit_between
  finish_stop req s m target = do
    clear_impersonator p ic.guard
    regenerate_and_persist_session p
    write_audit_between req s m.user_id target ic.guard (lit "auth.impersonation_stopped")
    give (json 200 (message (lit "Impersonation ended")))

  abbrev pub restored_actor :
      Request → Stamp → ImpersonatorMarker → (target : ℕ) → Result (Option User) → W S Answer
  restored_actor req s m target (err e) = drop_session >> finish_stop req s m target
  restored_actor req s m target (ok none) = drop_session >> finish_stop req s m target
  restored_actor req s m target (ok (some actor)) = do
    established ← guard_login p ic.guard actor.id
    choose established (with_session (stamp_session ic.guard actor) >> finish_stop req s m target)
        (give internal_error)

  unfoldable pub stop_marked :
      Request → Stamp → (target : ℕ) → Option ImpersonatorMarker → W S Answer
  unfolding drop_session finish_stop
  stop_marked req s target none = give (bad_request (lit "Not impersonating"))
  stop_marked req s target (some m) =
      choose m.same_guard
        (attempt (find_in m.guard m.user_id) >>= λ row. restored_actor req s m target row)
        (drop_session >> finish_stop req s m target)

  unfoldable pub stop : Request → Stamp → W S Answer
  unfolding stop_marked
  stop req s c = stop_marked req s c.auth_user_id (impersonator_of p ic.guard c) c
