-- ===== src/Middleware/Guards/Expiry.antt =====
-- http/middleware/authenticated.go with services/auth.go: sessions across a change of the password.
use goravel_authkit.Base.{ℕ, ◌≡◌, refl, true, false, [], some, ◌==◌}
use goravel_authkit.Text.{Str, lit, str_eq}
use goravel_authkit.Text.Laws.{str_eq_refl}
use goravel_authkit.Errors.{ok}
use goravel_authkit.Models.{User}
use goravel_authkit.External.{External}
use goravel_authkit.Store.{Db, Tables, done, machine, recovered}
use goravel_authkit.Models.{is_disabled}
use goravel_authkit.Repositories.Users
use goravel_authkit.Repositories.Users.{select_id, set_password}
use goravel_authkit.Services.Validation.{validate_password}
use goravel_authkit.Services.Auth.{change_password, check_hash}
use goravel_authkit.Services.Auth.Passwords.{change_lem, select_id-set_password, with_password}
use goravel_authkit.Middleware.Guards.{
  authenticated, admit, next, abort, stamp_valid, log_out_and_forget_stamp, of_session,
}

abbrev at_rest : Tables → Db
at_rest tables = record { tables = tables; faults = [] }

admitted :
    (format : ℕ → Str) (id at : ℕ) (stamp hash : Str) (u : User) (tables : Tables)
    → (id == 0) ≡ false
    → is_disabled u ≡ false
    → str_eq stamp (lit "") ≡ false
    → str_eq stamp (format at) ≡ true
    → select_id id tables.users ≡ some (with_password u hash at)
    → authenticated format id (some (some stamp)) (at_rest tables)
      ≡ done (next (of_session u.id)) (at_rest tables)
unfolding authenticated admit stamp_valid machine recovered Users.find_by_id is_disabled
admitted format id at stamp hash u tables real live full same found =
    rw (real, authenticated, found, live, full, same) refl

refused :
    (format : ℕ → Str) (id at : ℕ) (stamp hash : Str) (u : User) (tables : Tables)
    → (id == 0) ≡ false
    → is_disabled u ≡ false
    → str_eq stamp (lit "") ≡ false
    → str_eq stamp (format at) ≡ false
    → select_id id tables.users ≡ some (with_password u hash at)
    → authenticated format id (some (some stamp)) (at_rest tables)
      ≡ done (abort log_out_and_forget_stamp 401 (lit "session_expired")) (at_rest tables)
unfolding authenticated admit stamp_valid machine recovered Users.find_by_id is_disabled
refused format id at stamp hash u tables real live full other found =
    rw (real, authenticated, found, live, full, other) refl

-- After a change of password a session that holds the old stamp is signed out on its next
-- request, and the one that took the new stamp passes. The two times are written differently, the
-- account is enabled, and no call fails.
pub change_password-authenticated :
    (ext : External) (format : ℕ → Str) (keeps : ℕ → ℕ) (min_pw_len salt now id : ℕ)
    (current new hash : Str) (tables : Tables) (u : User)
    → select_id id tables.users ≡ some u
    → (id == 0) ≡ false
    → is_disabled u ≡ false
    → check_hash ext current u.password_hash ≡ true
    → validate_password new min_pw_len ≡ ok tt
    → str_eq new current ≡ false
    → ext.hash_make salt new ≡ ok hash
    → str_eq (format u.password_changed_at) (lit "") ≡ false
    → str_eq (format (keeps now)) (lit "") ≡ false
    → str_eq (format u.password_changed_at) (format (keeps now)) ≡ false
    → (after : Tables) × (at : ℕ) × (change_password ext keeps min_pw_len salt now id current new
          (at_rest tables)
        ≡ done at (at_rest after))
      × (authenticated format id (some (some (format u.password_changed_at))) (at_rest after)
          ≡ done (abort log_out_and_forget_stamp 401 (lit "session_expired")) (at_rest after))
      × (authenticated format id (some (some (format at))) (at_rest after)
          ≡ done (next (of_session u.id)) (at_rest after))
change_password-authenticated ext format keeps min_pw_len salt now id current new hash tables u
      found real live fits strong differs hashed old_set new_set other =
    let after : Tables = record tables { users = set_password id hash (keeps now) tables.users } in
    let row = select_id-set_password hash id (keeps now) tables.users u found in
    (
      after,
      keeps now,
      change_lem ext keeps min_pw_len salt now id current new hash tables u found fits strong
          differs hashed,
      refused format id (keeps now) (format u.password_changed_at) hash u after real live old_set
          other row,
      admitted format id (keeps now) (format (keeps now)) hash u after real live new_set
          (str_eq_refl (format (keeps now))) row,
    )
