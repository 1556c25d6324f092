-- ===== src/Services/Users/Admins.antt =====
-- services/users.go: proofs about the number of active administrators.
use native.Mathlib.Nat.{le_trans}
use goravel_authkit.Base.{
  ℕ, ◌≡◌, ◌≢◌, ◌≤◌, refl, sym, ◌∙◌, Bool, true, false, not, ◌&&◌, ◌||◌, List, Option, none, some,
  arith, ◌==◌, ◌⊎◌, inl, inr, Bool-cases, keep, length,
}
use mathlib.Core.Bool.{true≢false}
use goravel_authkit.Text.{Str, trim_space}
use goravel_authkit.Errors.{Err}
use goravel_authkit.Models.{User, is_disabled}
use goravel_authkit.External.{External}
use goravel_authkit.Store.{Db, Tables, tables_of}
use goravel_authkit.Store.Laws.{
  Ensures, Reads, then-Reads, Reads-then, branch-Reads, Reads-imp, branch-Ensures, query-Reads,
  check-Reads, fail-Reads, done-Reads, lift-Reads, exec_then, exec_last, done_last, at_end,
  then-Ensures,
}
use goravel_authkit.Repositories.Users
use goravel_authkit.Repositories.Users.{is_active_with_role, select_id, with_id}
use goravel_authkit.Repositories.Users.Laws.{
  UniqueIds, admins, others, select_id-first, inactive-others, others-save, others-delete,
  admin-save, active_excluding-others,
}
use goravel_authkit.Services.Users.{
  Config, get_by_id, or_fail, guard_last_admin, guard_email, changed, revoke_if, update,
  is_disabling, is_demoting, is_management_role, guard_delete, delete,
}
use goravel_authkit.Services.Validation.{normalize_email}
use goravel_authkit.Repositories.ApiTokens

or_fail-Reads :
    (row : Option User) (e : Err) (db : Db) → Reads (λ u. row ≡ some u) db.tables (or_fail row e db)
or_fail-Reads none e db = fail-Reads
or_fail-Reads (some u) e db = done-Reads refl

pub get_by_id-Reads :
    (id : ℕ) (db : Db)
    → Reads (λ u. select_id id db.tables.users ≡ some u) db.tables (get_by_id id db)
unfolding get_by_id Users.find_by_id
get_by_id-Reads id db =
    Reads-then _ (query-Reads (λ t. select_id id t.users) db)
      λ row fs e. rw (← e) (or_fail-Reads row _ _)

guard_email-Reads :
    (u : User) (email : Str) (db : Db) → Reads (λ _. Unit {0}) db.tables (guard_email u email db)
unfolding guard_email Users.find_by_email
guard_email-Reads u email db =
    branch-Reads _ _ _ _ (λ _. done-Reads tt)
      λ _.
        Reads-then _ (query-Reads (λ t. Users.select_email email t.users) db)
          λ row fs e. Reads-imp _ (check-Reads _ _ _) λ _ _. tt

module _ (c : Config) where
  -- What the guard of `Update` lets through: an account that is no active administrator, one that
  -- stays an active administrator, or one beside which another is left.
  abbrev Kept : User → ℕ → Str → Option Bool → Tables → Type 0
  Kept u id role disabled t =
      ((is_management_role c u.role && not (is_disabled u)) ≡ false)
      ⊎ ((is_disabling disabled || is_demoting c role) ≡ false)
      ⊎ (Users.active_excluding c.management_roles id t.users ≢ 0)

  pub guard_last_admin-Reads :
      (u : User) (id : ℕ) (role : Str) (disabled : Option Bool) (actor : ℕ) (db : Db)
      → Reads
          (λ _. Kept u id role disabled db.tables)
          db.tables
          (guard_last_admin c u id role disabled actor db)
  unfolding guard_last_admin Users.count_active_by_roles_excluding
  guard_last_admin-Reads u id role disabled actor db =
      branch-Reads _ _ _ _
        (λ critical.
          branch-Reads _ _ _ _ (λ _. fail-Reads)
            λ _.
              Reads-then _
                (query-Reads (λ t. Users.active_excluding c.management_roles id t.users) db)
                λ n fs e.
                  Reads-imp _ (check-Reads (not (n == 0)) _ _) λ _ ne. inr (inr (ground arith)))
        (λ safe. done-Reads (ground arith))

  changed-id :
      (u : User) (email name role : Str) (disabled : Option Bool) (now : ℕ)
      → (changed u email name role disabled now).id ≡ u.id
  unfolding changed
  changed-id u email name role disabled now = refl

  is_active-held :
      (u : User)
      → is_active_with_role c.management_roles u ≡ true
      → (is_management_role c u.role && not (is_disabled u)) ≡ true
  unfolding is_management_role is_disabled
  is_active-held u h = h

  -- Neither disabled nor demoted: still an active administrator.
  changed-active :
      (u : User) (email name role : Str) (disabled : Option Bool) (now : ℕ)
      → is_active_with_role c.management_roles u ≡ true
      → (is_disabling disabled || is_demoting c role) ≡ false
      → is_active_with_role c.management_roles (changed u email name role disabled now) ≡ true
  unfolding changed is_disabling is_demoting is_management_role
  changed-active u email name role disabled now held f = ground arith

  -- A row that is written keeps the count, if the guard has let the change through.
  changed-admins :
      (u : User) (id : ℕ) (email name role : Str) (disabled : Option Bool) (now : ℕ) (t : Tables)
      → UniqueIds t.users
      → 1 ≤ admins c.management_roles t.users
      → select_id id t.users ≡ some u
      → Kept u id role disabled t
      → 1
        ≤ admins c.management_roles
            (Users.save_row (changed u email name role disabled now) t.users)
  changed-admins u id email name role disabled now t unique one found kept =
      let (row, same, nonzero) = select_id-first id t.users u found in
      let u' = changed u email name role disabled now in
      let id' : u'.id ≡ u.id = changed-id u email name role disabled now in
      let others_left = λ (h : 1 ≤ others c.management_roles id t.users).
        le_trans (rw (← same, ← id') at h) (others-save c.management_roles u' t.users) in
      elim (Bool-cases (is_active_with_role c.management_roles u)) [
        | inr idle ↦
            others_left
              (omega (arith, inactive-others c.management_roles id t.users u unique row idle))
        | inl held ↦ elim kept [
          | inl f ↦ absurd (true≢false (sym (is_active-held u held) ∙ f))
          | inr (inl f) ↦
              admin-save c.management_roles id u' t.users u (id' ∙ same) row
                (changed-active u email name role disabled now held f)
          | inr (inr ne) ↦
              others_left (active_excluding-others c.management_roles id t.users nonzero ne)
        ]
      ]

-- Revoking tokens leaves the accounts alone.
pub revoke_if_users :
    (P : List User → Type 0) (b : Bool) (user now : ℕ) (db : Db)
    → P db.tables.users
    → Ensures (λ _ t. P t.users) (λ t. P t.users) (revoke_if b user now db)
unfolding revoke_if ApiTokens.revoke_all_by_user
revoke_if_users P b user now db h =
    branch-Ensures b _ _ db (λ _. exec_last _ db h h) (λ _. done_last h)

module _ (ext : External) (c : Config) where
  abbrev HasAdmin : List User → Type 0
  HasAdmin us = 1 ≤ admins c.management_roles us

  -- If an administrator is active before Update and ids are unique, then one is active after it,
  -- whether it succeeds, is refused or meets a failing call.
  pub update-admins :
      (now now' id : ℕ) (email name role : Str) (disabled : Option Bool) (actor : ℕ) (db : Db)
      → UniqueIds db.tables.users
      → 1 ≤ admins c.management_roles db.tables.users
      → 1
        ≤ admins c.management_roles
            (tables_of (update ext c now now' id email name role disabled actor db)).users
  unfolding update Users.save
  update-admins now now' id email name role disabled actor db unique one =
      at_end {P = λ t. HasAdmin t.users} _ (
        then-Reads _ (get_by_id-Reads id db) one λ u fs found.
          then-Reads _ (lift-Reads _ _) one λ _ fs _. then-Reads _ (check-Reads _ _ _) one λ _ fs _.
            then-Reads _ (guard_last_admin-Reads c u id _ disabled actor _) one λ _ fs kept.
              then-Reads _ (guard_email-Reads u _ _) one λ _ fs _.
                let saved =
                  changed-admins c u id (normalize_email ext email) (trim_space name)
                    (trim_space role) disabled now db.tables unique one found kept in
                exec_then _ _ _ one
                  (then-Ensures _ (revoke_if_users HasAdmin _ _ _ _ saved) λ _ d h. done_last h))

  pub guard_delete-Reads :
      (u : User) (id : ℕ) (db : Db)
      → Reads
          (λ _.
            (is_management_role c u.role ≡ false)
            ⊎ (Users.active_excluding c.management_roles id db.tables.users ≢ 0))
          db.tables
          (guard_delete c u id db)
  unfolding guard_delete Users.count_active_by_roles_excluding Users.count_all
  guard_delete-Reads u id db =
      branch-Reads _ _ _ _
        (λ _.
          Reads-then _ (query-Reads (λ t. Users.active_excluding c.management_roles id t.users) db)
            λ n fs e. Reads-imp _ (check-Reads (not (n == 0)) _ _) λ _ ne. inr (ground arith))
        (λ plain.
          branch-Reads _ _ _ _
            (λ _.
              Reads-then _ (query-Reads (λ t. length t.users) db)
                λ n fs e. Reads-imp _ (check-Reads _ _ _) λ _ _. inl plain)
            (λ _. done-Reads (inl plain)))

  removed_admins :
      (u : User) (id : ℕ) (t : Tables)
      → UniqueIds t.users
      → HasAdmin t.users
      → select_id id t.users ≡ some u
      → (is_management_role c u.role ≡ false)
        ⊎ (Users.active_excluding c.management_roles id t.users ≢ 0)
      → HasAdmin (keep (λ v. not (v.id == u.id)) t.users)
  unfolding is_management_role
  removed_admins u id t unique one found kept =
      let (row, same, nonzero) = select_id-first id t.users u found in
      let left : 1 ≤ others c.management_roles id t.users = elim kept [
        | inl plain ↦
            omega (arith, inactive-others c.management_roles id t.users u unique row (ground arith))
        | inr ne ↦ active_excluding-others c.management_roles id t.users nonzero ne
      ] in
      rw same (le_trans left (others-delete c.management_roles id t.users))

  -- If an administrator is active before Delete and ids are unique, then one is active after it,
  -- however it ends.
  pub delete-admins :
      (now id : ℕ) (db : Db)
      → UniqueIds db.tables.users
      → 1 ≤ admins c.management_roles db.tables.users
      → 1 ≤ admins c.management_roles (tables_of (delete ext c now id db)).users
  unfolding delete Users.delete
  delete-admins now id db unique one = at_end {P = λ t. HasAdmin t.users} _ (
      then-Reads _ (get_by_id-Reads id db) one λ u fs found.
        then-Reads _ (guard_delete-Reads u id _) one λ _ fs kept.
          exec_then _ _ _ one (
            revoke_if_users HasAdmin _ _ _ _ (removed_admins u id db.tables unique one found kept)))
