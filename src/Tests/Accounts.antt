-- ===== src/Tests/Accounts.antt =====
-- Accounts, passwords, sessions and impersonation at concrete inputs.
use goravel_authkit.Base.{ℕ, ◌≡◌, refl, true, false, [], ◌∷◌, some, ltb, arith, ◌↔◌, ◌⊎◌, is_empty}
use goravel_authkit.Text.{
  Str, lit, str_eq, mem_str, trim_space, lower_rune, byte_len, contains_rune,
}
use goravel_authkit.Errors.{ok}
use goravel_authkit.Store.{Tables, done, fail, tables_of}
use goravel_authkit.Errors.{invalid_credentials}
use goravel_authkit.Tests.Sample.{sample, ann, tables, db, settings}
use goravel_authkit.Repositories.Users.{select_email, select_id, unless_nil}
use goravel_authkit.Services.Users.{default_role, is_management_role, default_role_name}
use goravel_authkit.Services.Users.Uniqueness.{WellFormed}
use goravel_authkit.Services.Users.Roles.{default_role-management, AllManagement}
use goravel_authkit.Services.Validation.{normalize_email, validate_email, validate_password}
use goravel_authkit.Services.Auth.{authenticate, change_password}
use goravel_authkit.Services.Auth.{update_profile}
use goravel_authkit.Services.Auth.Profile.{update_profile-WellFormed}
use goravel_authkit.Services.Auth.Passwords.{change_password-authenticate, with_password}
use goravel_authkit.Services.Sessions.{touch, terminate_others}
use goravel_authkit.Services.Sessions.Termination.{rows_of, terminate_others-touch}
use goravel_authkit.Services.Impersonation.{Policy, Principal, authorize}
use goravel_authkit.Services.Impersonation.Policies.{authorize_iff, HookAgrees}

default_role-management_example : (is_management_role settings (default_role settings) ≡ true) ↔ (
    AllManagement settings.management_roles settings.roles
    × (mem_str settings.management_roles default_role_name ≡ true))
default_role-management_example = default_role-management settings

change_password-authenticate_example :
    (after : Tables) × (change_password sample
        (λ t. t)
        8
        7
        50
        1
        (lit "old secret")
        (lit "new secret")
        (record { tables = tables; faults = [] })
      ≡ done 50 (record { tables = after; faults = [] }))
    × (authenticate sample
          (lit "ann@x.org")
          (lit "new secret")
          (record { tables = after; faults = [] })
        ≡ done (with_password ann (lit "hnew secret") 50) (record { tables = after; faults = [] }))
    × (authenticate sample
          (lit "ann@x.org")
          (lit "old secret")
          (record { tables = after; faults = [] })
        ≡ fail invalid_credentials (record { tables = after; faults = [] }))
unfolding select_id unless_nil select_email normalize_email str_eq validate_email trim_space
    lower_rune byte_len contains_rune validate_password
change_password-authenticate_example =
    change_password-authenticate sample (λ t. t) 8 7 50 1 (lit "ann@x.org") (lit "old secret")
      (lit "new secret") (lit "hnew secret") tables ann refl refl refl refl refl refl refl refl refl
      refl refl

terminate_others-touch_example :
    (after : Tables) × (last : Tables) × (last' : Tables) × (terminate_others 1
        (lit "s1")
        (record { tables = tables; faults = [] })
      ≡ done tt (record { tables = after; faults = [] }))
    × (touch 60 (lit "s2") (record { tables = after; faults = [] })
        ≡ done false (record { tables = last; faults = [] }))
    × (touch 60 (lit "s1") (record { tables = after; faults = [] })
        ≡ done
            (ltb 0 (rows_of (lit "s1") tables.sessions))
            (record { tables = last'; faults = [] }))
unfolding str_eq
terminate_others-touch_example =
    terminate_others-touch 60 1 (lit "s1") (lit "s2") tables
      (λ e. refl, (λ e. refl, (λ e. absurd (ground arith), tt))) refl refl refl

abbrev policy : Policy
policy = record {
  roles = lit "admin" ∷ [];
  target_guards = lit "*" ∷ [];
  protected_roles = lit "admin" ∷ [];
  hook = some (λ actor guard target. ok true);
}

abbrev person : (id : ℕ) → (role : Str) → Principal
person id role = record { guard = lit "admin"; user_id = id; email = lit "a@x.org"; role = role }

authorize_iff_example :
    (authorize policy (person 1 (lit "admin")) (lit "user") (person 2 (lit "user")) ≡ ok tt) ↔ (
      ((is_empty policy.roles ≡ true) ⊎ (mem_str policy.roles (lit "admin") ≡ true))
      × ((mem_str policy.target_guards (lit "*") ≡ true)
          ⊎ (mem_str policy.target_guards (lit "user") ≡ true))
      × (mem_str policy.protected_roles (lit "user") ≡ false)
      × HookAgrees policy.hook (person 1 (lit "admin")) (lit "user") (person 2 (lit "user")))
authorize_iff_example =
    authorize_iff policy (person 1 (lit "admin")) (lit "user") (person 2 (lit "user"))

update_profile-WellFormed_example :
    WellFormed (tables_of (update_profile sample 1 (lit "Zoe@x.org") (lit "Ann") db)).users
unfolding str_eq
update_profile-WellFormed_example =
    update_profile-WellFormed sample 1 (lit "Zoe@x.org") (lit "Ann") db (
      (λ e. omega arith, (λ e. omega arith, tt)),
      ((λ e. omega arith, tt), (tt, tt)),
      ((refl, tt), (tt, tt)),
    )
