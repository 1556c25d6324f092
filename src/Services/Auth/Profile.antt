-- ===== src/Services/Auth/Profile.antt =====
-- services/auth.go: proofs about a change of the own profile.
use goravel_authkit.Base.{ℕ, ◌≡◌, refl, sym, ◌∙◌, Bool, true, not, Option, none, some}
use goravel_authkit.Text.{Str}
use goravel_authkit.Text.Laws.{str_eq_refl}
use goravel_authkit.Errors.{Err}
use goravel_authkit.Models.{User}
use goravel_authkit.External.{External}
use goravel_authkit.Store.{Db, Tables, Outcome, done, fail, tables_of}
use goravel_authkit.Store.Laws.{
  Ensures, Reads, then-Reads, Reads-then, branch-Reads, branch-Ensures, query-Reads, check-Reads,
  fail-Reads, done-Reads, lift-Reads, done_last, at_end, fail_last,
}
use goravel_authkit.Store.Calls.{exec-Ensures}
use goravel_authkit.Repositories.Users
use goravel_authkit.Repositories.Users.{select_email, select_id}
use goravel_authkit.Services.Validation.{normalize_email}
use goravel_authkit.Services.Auth.{update_profile, move_email, saved, or_fail, is_other}
use goravel_authkit.Services.Users as UserService
use goravel_authkit.Services.Users.Emails.{FreeBeside}
use goravel_authkit.Services.Users.Uniqueness.{WellFormed, save-WellFormed, beside-own, beside-row}

or_fail-Reads :
    (row : Option User) (e : Err) (db : Db) → Reads (λ u. row ≡ some u) db.tables (or_fail row e db)
or_fail-Reads none e db = fail-Reads
or_fail-Reads (some u) e db = done-Reads refl

not_other :
    (ext : External) (row : Option User) (u : User)
    → not (is_other ext row u) ≡ true
    → not (UserService.is_other row u) ≡ true
not_other ext none u e = refl
not_other ext (some v) u e = e

saved-Ensures :
    (ext : External) (P : Tables → Type 0) (o : Outcome (Unit {0})) (r : User × Bool)
    → Ensures (λ _ t. P t) P o
    → Ensures (λ _ t. P t) P (saved ext o r)
unfolding saved
saved-Ensures ext P (done a d) r h = done_last h.holds
saved-Ensures ext P (fail e d) r h = fail_last h.holds

-- The row that is to be saved has the same id, and an address that is free beside it.
move_email-Reads :
    (ext : External) (id : ℕ) (u : User) (email : Str) (db : Db)
    → WellFormed db.tables.users
    → select_id id db.tables.users ≡ some u
    → Reads
        (λ moved. FreeBeside moved.email moved.id db.tables.users)
        db.tables
        (move_email ext u email db)
unfolding move_email Users.find_by_email
move_email-Reads ext id u email db w found =
    branch-Reads _ _ _ _
      (λ same. done-Reads (beside-own db.tables.users id u u.email w found (str_eq_refl u.email)))
      λ _. Reads-then _ (query-Reads (λ t. select_email email t.users) db) λ row fs e.
        Reads-then _ (check-Reads _ _ _) λ _ fs own.
          done-Reads (beside-row db.tables.users u email row w e (not_other ext row u own))

-- UpdateProfile keeps the accounts well-formed, and with that the addresses unique, whether it
-- succeeds, is refused or meets a failing call.
pub update_profile-WellFormed :
    (ext : External) (id : ℕ) (email name : Str) (db : Db)
    → WellFormed db.tables.users
    → WellFormed (tables_of (update_profile ext id email name db)).users
unfolding update_profile Users.find_by_id Users.save
update_profile-WellFormed ext id email name db w = at_end {P = λ t. WellFormed t.users} _ (
    then-Reads _ (query-Reads (λ t. select_id id t.users) db) w λ row fs found.
      then-Reads _ (or_fail-Reads row _ _) w λ u fs is_row.
        then-Reads _ (lift-Reads _ _) w λ _ fs _.
          branch-Ensures _ _ _ _ (λ _. done_last w)
            λ _.
              then-Reads _
                (move_email-Reads ext id u (normalize_email ext email) _ w (sym found ∙ is_row)) w
                λ moved fs free.
                  saved-Ensures ext (λ t. WellFormed t.users) _ _
                    (exec-Ensures _ _ w (save-WellFormed _ db.tables.users w free)))
