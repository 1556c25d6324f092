-- ===== src/Services/Users.antt =====
-- services/users.go: administration of accounts.
pub mod Admins
pub mod Roles
pub mod Emails
pub mod Uniqueness
pub mod Standing
use goravel_authkit.Base.{
  ℕ, Bool, true, false, not, ◌&&◌, ◌||◌, List, [], ◌∷◌, Option, none, some, ltb, leb, ◌==◌,
  if◌then◌else◌, is_some, is_empty,
}
use goravel_authkit.Text.{Str, lit, str_eq, mem_str, trim_space}
use goravel_authkit.Errors.{Err, not_found, already_exists, last_admin, validation}
use goravel_authkit.Models.{User, is_disabled}
use goravel_authkit.External.{External}
use goravel_authkit.Store.{
  Db, Outcome, done, fail, M, ◌>>=◌, ◌>>◌, check, lift, or_internal, branch,
}
use goravel_authkit.Repositories.Users
use goravel_authkit.Repositories.ApiTokens
use goravel_authkit.Services.Validation.{normalize_email, validate_email, validate_password}

-- The service's configuration; `api_tokens` says whether the token service is present.
pub record Config : Type 0 where
  pub min_pw_len : ℕ
  pub roles : List Str
  pub management_roles : List Str
  pub api_tokens : Bool
  pub revoke_api_tokens_on_password_change : Bool

abbrev pub default_role_name : Str
default_role_name = lit "user"

unfoldable pub is_management_role : Config → Str → Bool
is_management_role c role = mem_str c.management_roles role

-- The loop of `defaultRole` over the configured roles.
unfoldable pub first_non_management : List Str → List Str → Str
first_non_management management [] = default_role_name
first_non_management management (r ∷ roles) =
    let rest = first_non_management management roles in if mem_str management r then rest else r

unfoldable pub default_role : Config → Str
unfolding first_non_management
default_role c = first_non_management c.management_roles c.roles

unfoldable pub role_allowed : Config → Str → Bool
role_allowed c role = is_empty c.roles || mem_str c.roles role

abbrev pub or_fail : Option User → Err → M User
or_fail none e = fail e
or_fail (some u) e = done u

unfoldable pub get_by_id : ℕ → M User
get_by_id id = do row ← or_internal (Users.find_by_id id); or_fail row not_found

unfoldable pub list : M (List User)
list = or_internal Users.list

-- A pointer to the trimmed name, nil if it is empty.
abbrev pub name_ptr : Str → Option Str
name_ptr name = if str_eq name (lit "") then none else some name

-- `role == ""` selects the default.
abbrev pub role_or_default : Config → Str → Str
role_or_default c role = if str_eq role (lit "") then default_role c else role

abbrev pub is_free : Option User → Bool
is_free none = true
is_free (some u) = false

-- gorm sets created_at to the time of the insert, which is taken to be `now` too.
unfoldable pub new_user : ℕ → ℕ → Str → Str → Str → Str → User
new_user id now email name hash role = record {
  id = id;
  name = name_ptr name;
  email = email;
  email_verified = none;
  image = none;
  password_hash = some hash;
  password_changed_at = now;
  role = role;
  disabled_at = none;
  two_factor_secret = none;
  two_factor_recovery_codes = none;
  two_factor_confirmed_at = none;
  two_factor_last_used_at = none;
  created_at = now;
}

-- Is the target about to lose its place among the active administrators?
unfoldable pub is_disabling : Option Bool → Bool
is_disabling none = false
is_disabling (some b) = b

unfoldable pub is_demoting : Config → Str → Bool
is_demoting c role = not (str_eq role (lit "")) && not (is_management_role c role)

-- The guard of `Update` on the last active administrator.
unfoldable pub guard_last_admin : Config → User → ℕ → Str → Option Bool → ℕ → M (Unit {0})
guard_last_admin c u id role disabled actor =
    branch
      ((is_management_role c u.role && not (is_disabled u))
        && (is_disabling disabled || is_demoting c role))
      (branch (is_disabling disabled && (not (actor == 0) && actor == id))
        (fail (validation (lit "you cannot disable your own account")))
        (or_internal (Users.count_active_by_roles_excluding c.management_roles id)
          >>= (λ others. check (not (others == 0)) last_admin)))
      (done tt)

abbrev pub is_other : Option User → User → Bool
is_other none u = false
is_other (some other) u = not (other.id == u.id)

unfoldable pub guard_email : User → Str → M (Unit {0})
guard_email u email = branch (str_eq email u.email) (done tt) (
    or_internal (Users.find_by_email email)
    >>= (λ other. check (not (is_other other u)) already_exists))

-- disabled_at after the switch of `Update`.
unfoldable pub disabled_after : Option Bool → Option ℕ → ℕ → Option ℕ
disabled_after none at now = at
disabled_after (some true) none now = some now
disabled_after (some true) (some t) now = some t
disabled_after (some false) at now = none

unfoldable pub changed : User → Str → Str → Str → Option Bool → ℕ → User
unfolding disabled_after
changed u email name role disabled now = record u {
  email = email;
  name = name_ptr name;
  role = if str_eq role (lit "") then u.role else role;
  disabled_at = disabled_after disabled u.disabled_at now;
}

unfoldable pub revoke_if : Bool → ℕ → ℕ → M (Unit {0})
revoke_if wanted user now =
    branch wanted (or_internal (ApiTokens.revoke_all_by_user user now)) (done tt)

-- The guard of `Delete`.
unfoldable pub guard_delete : Config → User → ℕ → M (Unit {0})
guard_delete c u id =
    branch (is_management_role c u.role)
      (or_internal (Users.count_active_by_roles_excluding c.management_roles id)
        >>= (λ others. check (not (others == 0)) last_admin))
      (branch (is_empty c.management_roles)
        (or_internal Users.count_all >>= (λ n. check (not (leb n 1)) last_admin)) (done tt))

module _ (ext : External) (c : Config) where
  -- `id` is what uuid.New answers, `salt` the hasher's, `now` the time.
  unfoldable pub create : (id salt now : ℕ) → (email name password role : Str) → M User
  create id salt now email name password role = do
    let address = normalize_email ext email
    let trimmed = trim_space name
    let wanted = role_or_default c (trim_space role)
    lift (validate_email ext address)
    lift (validate_password password c.min_pw_len)
    check (role_allowed c wanted) (validation (lit "invalid role"))
    existing ← or_internal (Users.find_by_email address)
    check (is_free existing) already_exists
    hashed ← or_internal (lift (ext.hash_make salt password))
    let u = new_user id now address trimmed hashed wanted
    _ ← or_internal (Users.create u)
    done u

  -- `now` stamps the row, `now'` the revoked tokens.
  unfoldable pub update :
      (now now' id : ℕ) → (email name role : Str) → Option Bool → (actor : ℕ) → M User
  update now now' id email name role disabled actor = do
    u ← get_by_id id
    let address = normalize_email ext email
    let role' = trim_space role
    lift (validate_email ext address)
    check (str_eq role' (lit "") || role_allowed c role') (validation (lit "invalid role"))
    guard_last_admin c u id role' disabled actor
    guard_email u address
    let u' = changed u address (trim_space name) role' disabled now
    _ ← or_internal (Users.save u')
    _ ← revoke_if (is_disabling disabled && c.api_tokens) u.id now'
    done u'

  unfoldable pub delete : (now id : ℕ) → M (Unit {0})
  delete now id = do
    u ← get_by_id id
    guard_delete c u id
    _ ← or_internal (Users.delete u)
    revoke_if c.api_tokens u.id now

  unfoldable pub set_password : (salt now now' id : ℕ) → Str → M User
  set_password salt now now' id password = do
    u ← get_by_id id
    lift (validate_password password c.min_pw_len)
    hashed ← or_internal (lift (ext.hash_make salt password))
    _ ← or_internal (Users.update_password id hashed now)
    _ ← revoke_if (c.api_tokens && c.revoke_api_tokens_on_password_change) u.id now'
    done (record u { password_hash = some hashed; password_changed_at = now })
