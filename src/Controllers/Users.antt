-- ===== src/Controllers/Users.antt =====
-- http/controllers/users.go. A body that cannot be bound is `none`, and `id` is the parameter of the
-- route as it stands in the path.
pub mod Kept
pub mod Reachable
use goravel_authkit.Base.{
  ℕ, Bool, true, false, not, ◌&&◌, List, Option, none, some, ◌==◌, if◌then◌else◌,
}
use goravel_authkit.Text.{Str, lit}
use goravel_authkit.Errors.{Err, Result, ok, err, not_found, validation, already_exists, last_admin}
use goravel_authkit.Models.{User}
use goravel_authkit.External.{External}
use goravel_authkit.Http.{
  Context, Platform, Request, ran, W, ◌>>=◌, ◌>>◌, give, choose, attempt, request_user,
}
use goravel_authkit.Responses.{
  Answer, json, error, message, account, accounts, internal_error, invalid_body, new_user_response,
  new_user_list_response, CreateUserRequest, UpdateUserRequest,
}
use goravel_authkit.Services.Users
use goravel_authkit.Controllers.{
  cause, validation_message, Stamp, entry, write_audit, parse_uuid_param,
}

-- `audit` says whether the audit log is enabled.
pub record UsersController : Type 0 where
  pub users : Users.Config
  pub audit : Bool

-- What an operation draws, and reads of the clock.
pub record UserDraws : Type 0 where
  pub id : ℕ
  pub salt : ℕ
  pub now : ℕ
  pub revoked_at : ℕ
  pub audit : Stamp

abbrev service_answer : Err → Answer
service_answer not_found = json 404 (error (lit "not_found") (lit "User not found"))
service_answer (validation detail) =
    json 400 (error (lit "validation_error") (validation_message detail))
service_answer already_exists =
    json 409 (error (lit "already_exists") (lit "A user with this email already exists"))
service_answer last_admin =
    json 409
      (error (lit "last_admin") (lit "Cannot remove, disable, or demote the last admin user"))
service_answer _ = internal_error

-- mapError
unfoldable pub map_user_error : Err → Answer
unfolding cause validation_message
map_user_error e = service_answer (cause e)

abbrev pub self_disable : Answer
self_disable = json 400 (error (lit "self_disable") (lit "You cannot disable your own account"))

abbrev pub self_delete : Answer
self_delete = json 400 (error (lit "self_delete") (lit "You cannot delete your own account"))

-- uuid.Nil is no actor.
abbrev nonzero : ℕ → Option ℕ
nonzero id = if id == 0 then none else some id

abbrev wants_disabled : Option Bool → Bool
wants_disabled none = false
wants_disabled (some b) = b

module _ {S : Type 0} (ext : External) (p : Platform S) (uc : UsersController) where
  -- writeAudit
  unfoldable pub write_user_audit :
      Request → Stamp → (action : Str) → (resource : ℕ) → W S (Unit {0})
  unfolding write_audit
  write_user_audit req s action resource = do
    actor ← request_user
    write_audit uc.audit s (entry (nonzero actor) action (some (p.uuid_string resource)) req)

  abbrev list_answer : Result (List User) → Answer
  list_answer (err e) = map_user_error e
  list_answer (ok users) = json 200 (accounts (new_user_list_response p users))

  unfoldable pub index : W S Answer
  unfolding map_user_error
  index = do r ← attempt Users.list; give (list_answer r)

  abbrev show_answer : Result User → Answer
  show_answer (err e) = map_user_error e
  show_answer (ok u) = json 200 (account (new_user_response p u))

  unfoldable pub show : (id : Str) → W S Answer
  unfolding map_user_error parse_uuid_param
  show id = parse_uuid_param p id λ n. attempt (Users.get_by_id n) >>= λ r. give (show_answer r)

  -- The audit entry and the answer of an operation that has changed an account.
  abbrev pub written : Request → Stamp → (action : Str) → (status : ℕ) → Result User → W S Answer
  written req s action status (err e) = give (map_user_error e)
  written req s action status (ok u) =
      write_user_audit req s action u.id >> give (json status (account (new_user_response p u)))

  unfoldable pub store : Option CreateUserRequest → Request → UserDraws → W S Answer
  unfolding write_user_audit map_user_error
  store none req d = give invalid_body
  store (some body) req d = do
    r ←
        attempt
          (Users.create ext uc.users d.id d.salt d.now body.email body.name body.password body.role)
    written req d.audit (lit "user.create") 201 r

  abbrev update_account : UpdateUserRequest → Request → UserDraws → (id actor : ℕ) → W S Answer
  update_account body req d id actor =
      choose (wants_disabled body.disabled && actor == id) (give self_disable) (
        attempt (
          Users.update ext uc.users d.now d.revoked_at id body.email body.name body.role
            body.disabled actor)
        >>= λ r. written req d.audit (lit "user.update") 200 r)

  abbrev update_body : Option UpdateUserRequest → Request → UserDraws → (id : ℕ) → W S Answer
  update_body none req d id = give invalid_body
  update_body (some body) req d id = request_user >>= λ actor. update_account body req d id actor

  unfoldable pub update : (id : Str) → Option UpdateUserRequest → Request → UserDraws → W S Answer
  unfolding write_user_audit map_user_error parse_uuid_param
  update id body req d = parse_uuid_param p id λ n. update_body body req d n

  abbrev pub deleted : Request → Stamp → (id : ℕ) → Result (Unit {0}) → W S Answer
  deleted req s id (err e) = give (map_user_error e)
  deleted req s id (ok u) =
      write_user_audit req s (lit "user.delete") id >> give (json 200 (message (lit "deleted")))

  abbrev delete_account : Request → UserDraws → (id actor : ℕ) → W S Answer
  delete_account req d id actor =
      choose (actor == id) (give self_delete)
        (attempt (Users.delete ext uc.users d.revoked_at id) >>= λ r. deleted req d.audit id r)

  unfoldable pub destroy : (id : Str) → Request → UserDraws → W S Answer
  unfolding write_user_audit map_user_error parse_uuid_param
  destroy id req d =
      parse_uuid_param p id λ n. request_user >>= λ actor. delete_account req d n actor

  abbrev password_body : Option Str → Request → UserDraws → (id : ℕ) → W S Answer
  password_body none req d id = give invalid_body
  password_body (some password) req d id =
      attempt (Users.set_password ext uc.users d.salt d.now d.revoked_at id password) >>= λ r.
      written req d.audit (lit "user.password_reset") 200 r

  unfoldable pub set_password :
      (id : Str) → (password : Option Str) → Request → UserDraws → W S Answer
  unfolding write_user_audit map_user_error parse_uuid_param
  set_password id password req d = parse_uuid_param p id λ n. password_body password req d n
