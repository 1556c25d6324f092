-- ===== src/Services/Users/Roles.antt =====
-- services/users.go: the role of an account that is created without one.
use goravel_authkit.Base.{◌≡◌, refl, true, List, [], ◌∷◌, arith, All, Bool-cases, inl, inr, ◌↔◌}
use goravel_authkit.Text.{Str, mem_str}
use goravel_authkit.Services.Users.{
  Config, default_role, first_non_management, is_management_role, default_role_name,
}

module _ (management : List Str) where
  -- Every role of the list is a management role.
  abbrev pub AllManagement : List Str → Type 0
  AllManagement roles = All (λ r. mem_str management r ≡ true) roles

  first_managing :
      (roles : List Str)
      → mem_str management (first_non_management management roles) ≡ true
      → AllManagement roles × (first_non_management management roles ≡ default_role_name)
  unfolding first_non_management
  first_managing [] h = (tt, refl)
  first_managing (r ∷ roles) h = elim (Bool-cases (mem_str management r)) [
    | inl m ↦ let (rest, e) = first_managing roles (ground arith) in ((m, rest), rw m e)
    | inr f ↦ ground arith
  ]

  all_managing :
      (roles : List Str)
      → AllManagement roles
      → first_non_management management roles ≡ default_role_name
  unfolding first_non_management
  all_managing [] h = refl
  all_managing (r ∷ roles) h = rw h.0 (all_managing roles h.1)

-- The default role is a management role exactly if all configured roles are, and "user" is one
-- too.
pub default_role-management :
    (c : Config)
    → (is_management_role c (default_role c) ≡ true) ↔ (
        AllManagement c.management_roles c.roles
        × (mem_str c.management_roles default_role_name ≡ true))
unfolding default_role is_management_role
default_role-management c = (
  λ h. let (all, e) = first_managing c.management_roles c.roles h in (all, rw (← e) h),
  λ h. rw (all_managing c.management_roles c.roles h.0) h.1,
)
