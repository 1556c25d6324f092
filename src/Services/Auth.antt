-- ===== src/Services/Auth.antt =====
-- services/auth.go: credentials, the own profile and the own password.
pub mod Passwords
pub mod Profile
use goravel_authkit.Base.{
  ℕ, Bool, true, false, not, ◌&&◌, ◌||◌, List, [], ◌∷◌, Option, none, some, ◌==◌, if◌then◌else◌,
}
use goravel_authkit.Text.{Str, lit, str_eq, trim_space, to_lower, contains}
use goravel_authkit.Errors.{
  Err, invalid_credentials, unauthorized, already_exists, wrong_password, validation, internal,
  driver, Result,
}
use goravel_authkit.Models.{User, is_disabled}
use goravel_authkit.External.{External}
use goravel_authkit.Store.{
  Db, Outcome, done, fail, M, ◌>>=◌, ◌>>◌, check, lift, or_internal, branch,
}
use goravel_authkit.Repositories.Users
use goravel_authkit.Services.Validation.{normalize_email, validate_email, validate_password}

abbrev pub or_fail : Option User → Err → M User
or_fail none e = fail e
or_fail (some u) e = done u

abbrev is_ok : Result (Unit {0}) → Bool
is_ok (Result.ok a) = true
is_ok (Result.err e) = false

abbrev not_empty : Option Str → Bool
not_empty none = false
not_empty (some h) = not (str_eq h (lit ""))

module _ (ext : External) where
  -- hasher.Check against a stored hash, false where there is none.
  abbrev pub check_hash : Str → Option Str → Bool
  check_hash password none = false
  check_hash password (some h) = ext.hash_check password h

  -- The user of the row, if it has a hash that the password fits. The comparison with the dummy
  -- hash only spends time.
  unfoldable pub verified : Option User → Str → M User
  verified none password = fail invalid_credentials
  verified (some u) password =
      check (not_empty u.password_hash) invalid_credentials
      >> (check (check_hash password u.password_hash) invalid_credentials >> done u)

  unfoldable pub authenticate : (email password : Str) → M User
  authenticate email password = do
    let address = normalize_email ext email
    check (is_ok (validate_email ext address) && not (str_eq password (lit ""))) invalid_credentials
    row ← or_internal (Users.find_by_email address)
    verified row password

  unfoldable pub live : Option User → M User
  live none = fail unauthorized
  live (some u) = check (not (is_disabled u)) unauthorized >> done u

  unfoldable pub me : ℕ → M User
  me id = do row ← or_internal (Users.find_by_id id); live row

  -- The text of an error, in lower case, names a violated constraint.
  unfoldable pub is_unique_violation : Err → Bool
  is_unique_violation (driver msg) =
      contains (to_lower ext.lower_table msg) (lit "duplicate")
      || contains (to_lower ext.lower_table msg) (lit "unique")
  is_unique_violation _ = false

  abbrev save_error : Err → Err
  save_error e = if is_unique_violation e then already_exists else internal e

  unfoldable pub saved : Outcome (Unit {0}) → User × Bool → Outcome (User × Bool)
  saved (done _ db) r = done r db
  saved (fail e db) r = fail (save_error e) db

  abbrev pub name_of : User → Str
  name_of u = elim u.name [ none ↦ lit "" | some n ↦ n ]

  abbrev pub name_ptr : Str → Option Str
  name_ptr name = if str_eq name (lit "") then none else some name

  abbrev pub is_other : Option User → User → Bool
  is_other none u = false
  is_other (some other) u = not (other.id == u.id)

  -- An address that changes must be free, and is no longer verified.
  unfoldable pub move_email : User → Str → M User
  move_email u email = branch (str_eq email u.email) (done u) (
      or_internal (Users.find_by_email email) >>= (λ other.
        check (not (is_other other u)) already_exists
        >> done (record u { email = email; email_verified = none })))

  -- The user, and whether anything changed.
  unfoldable pub update_profile : ℕ → (email name : Str) → M (User × Bool)
  update_profile id email name = do
    row ← or_internal (Users.find_by_id id)
    u ← or_fail row unauthorized
    let address = normalize_email ext email
    let trimmed = trim_space name
    lift (validate_email ext address)
    branch (str_eq address u.email && str_eq trimmed (name_of u)) (done (u, false)) (
        move_email u address >>= (λ moved.
          let u' = record moved { name = name_ptr trimmed } in
          λ db. saved (Users.save u' db) (u', true)))

  abbrev changed_at : Option User → M ℕ
  changed_at none = fail unauthorized
  changed_at (some u) = done u.password_changed_at

  -- `keeps` is what the column of the database keeps of an instant (PostgreSQL: microseconds).
  unfoldable pub change_password :
      (keeps : ℕ → ℕ) → (min_pw_len salt now id : ℕ) → (current new : Str) → M ℕ
  change_password keeps min_pw_len salt now id current new = do
    row ← or_internal (Users.find_by_id id)
    u ← or_fail row unauthorized
    check (check_hash current u.password_hash) wrong_password
    lift (validate_password new min_pw_len)
    check (not (str_eq new current))
        (validation (lit "new password must differ from the current password"))
    hashed ← or_internal (lift (ext.hash_make salt new))
    _ ← or_internal (Users.update_password id hashed (keeps now))
    updated ← or_internal (Users.find_by_id id)
    changed_at updated
