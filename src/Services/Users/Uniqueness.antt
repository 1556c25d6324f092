-- ===== src/Services/Users/Uniqueness.antt =====
-- services/users.go, services/auth.go: proofs about the uniqueness of ids and addresses.
use mathlib.Core.Path.{subst}
use goravel_authkit.Base.{
  ℕ, ◌≡◌, ◌≢◌, refl, sym, ◌∙◌, Bool, true, not, List, [], ◌∷◌, ◌++◌, Option, none, some, arith,
  ◌==◌, All, Bool-cases, inl, inr, first, first_of_All,
}
use goravel_authkit.Text.{Str, str_eq}
use goravel_authkit.Text.Laws.{str_eq-sym}
use goravel_authkit.Models.{User}
use goravel_authkit.External.{External}
use goravel_authkit.Store.{Db, Tables, tables_of}
use goravel_authkit.Store.Laws.{
  Reads, then-Reads, Reads-then, branch-Reads, Reads-imp, query-Reads, check-Reads, done-Reads,
  lift-Reads, lift-joined-Reads, exec_then, done_last, at_end, then-Ensures,
}
use goravel_authkit.Repositories.Users as UserRows
use goravel_authkit.Repositories.Users.{select_email, select_id, save_row, with_id}
use goravel_authkit.Repositories.Users.Laws.{UniqueIds, unless_nil-some, select_id-first}
use goravel_authkit.Services.Users
use goravel_authkit.Services.Users.{
  Config, create, new_user, update, changed, guard_email, guard_last_admin, set_password,
  disabled_after,
}
use goravel_authkit.Services.Users.Admins.{get_by_id-Reads, guard_last_admin-Reads, revoke_if_users}
use goravel_authkit.Services.Users.Emails.{
  UniqueEmails, ProperIds, FreeBeside, select-Free, append_unique, save_unique, Free-beside,
  owner-beside,
}
use goravel_authkit.Services.Validation.{normalize_email}

-- A well-formed table of accounts: no row of uuid.Nil, no two rows of one id or one address.
abbrev pub WellFormed : List User → Type 0
WellFormed us = ProperIds us × UniqueIds us × UniqueEmails us

not_free : (row : Option User) → Users.is_free row ≡ true → row ≡ none
not_free none e = refl
not_free (some u) e = cc

-- An address that the account may take: its own, one of nobody, or one that a lookup finds at itself.
pub beside-own :
    (us : List User) (id : ℕ) (u : User) (email : Str)
    → WellFormed us
    → select_id id us ≡ some u
    → str_eq u.email email ≡ true
    → FreeBeside email u.id us
beside-own us id u email w found same =
    owner-beside (with_id id) us u email w.2 (select_id-first id us u found).0 same

beside-found :
    (us : List User) (u v : User) (email : Str)
    → WellFormed us
    → select_email email us ≡ some v
    → v.id ≡ u.id
    → FreeBeside email u.id us
unfolding select_email
beside-found us u v email w found same =
    let row = (unless_nil-some (first (λ x. str_eq x.email email) us) v found).0 in
    let mine = (first_of_All _ (λ x. str_eq x.email email) us w.0 row).1 in
    subst (λ i. FreeBeside email i us) same
      (owner-beside (λ x. str_eq x.email email) us v email w.2 row mine)

pub beside-row :
    (us : List User) (u : User) (email : Str) (row : Option User)
    → WellFormed us
    → row ≡ select_email email us
    → not (Users.is_other row u) ≡ true
    → FreeBeside email u.id us
beside-row us u email none w e own = Free-beside email u.id us (select-Free email us w.0 (sym e))
beside-row us u email (some v) w e own = beside-found us u v email w (sym e) (ground arith)

guard_email-Reads :
    (id : ℕ) (u : User) (email : Str) (db : Db)
    → WellFormed db.tables.users
    → select_id id db.tables.users ≡ some u
    → Reads (λ _. FreeBeside email u.id db.tables.users) db.tables (guard_email u email db)
unfolding guard_email UserRows.find_by_email
guard_email-Reads id u email db w found =
    branch-Reads _ _ _ _
      (λ same.
        done-Reads
          (beside-own db.tables.users id u email w found (str_eq-sym u.email email ∙ same)))
      λ _. Reads-then _ (query-Reads (λ t. select_email email t.users) db) λ row fs e.
        Reads-imp _ (check-Reads _ _ _) λ _ own. beside-row db.tables.users u email row w e own

save-apart :
    (k : ℕ) (u : User) (us : List User)
    → All (λ (v : User). v.id ≢ k) us
    → All (λ (v : User). v.id ≢ k) (save_row u us)
unfolding save_row
save-apart k u [] h = tt
save-apart k u (v ∷ us) h = (ground arith, save-apart k u us h.1)

save-ids : (u : User) (us : List User) → UniqueIds us → UniqueIds (save_row u us)
unfolding save_row
save-ids u [] h = tt
save-ids u (v ∷ us) h = elim (Bool-cases (v.id == u.id)) [
  | inl e ↦
      let same : v.id ≡ u.id = ground arith in
      rw e (
        subst (λ k. All (λ (w : User). w.id ≢ k) (save_row u us)) same (save-apart v.id u us h.0),
        save-ids u us h.1,
      )
  | inr e ↦ rw e (save-apart v.id u us h.0, save-ids u us h.1)
]

pub save-WellFormed :
    (u : User) (us : List User)
    → WellFormed us
    → FreeBeside u.email u.id us
    → WellFormed (save_row u us)
save-WellFormed u us w f = (save-apart 0 u us w.0, save-ids u us w.1, save_unique u us w.1 w.2 f)

append-apart :
    (k : ℕ) (us : List User) (v : User)
    → All (λ (w : User). w.id ≢ k) us
    → v.id ≢ k
    → All (λ (w : User). w.id ≢ k) (us ++ v ∷ [])
append-apart k [] v h ne = (ne, tt)
append-apart k (u ∷ us) v h ne = (h.0, append-apart k us v h.1 ne)

append-ids :
    (us : List User) (v : User)
    → UniqueIds us
    → All (λ (w : User). w.id ≢ v.id) us
    → UniqueIds (us ++ v ∷ [])
append-ids [] v h f = (tt, tt)
append-ids (u ∷ us) v h f = (append-apart u.id us v h.0 (λ e. f.0 (sym e)), append-ids us v h.1 f.1)

module _ (ext : External) (c : Config) where
  abbrev AllWell : Tables → Type 0
  AllWell t = WellFormed t.users

  -- Create keeps the accounts well-formed, however it ends, if the id that is drawn is new.
  pub create-WellFormed :
      (id salt now : ℕ) (email name password role : Str) (db : Db)
      → WellFormed db.tables.users
      → id ≢ 0
      → All (λ (v : User). v.id ≢ id) db.tables.users
      → WellFormed (tables_of (create ext c id salt now email name password role db)).users
  unfolding create new_user UserRows.find_by_email UserRows.create
  create-WellFormed id salt now email name password role db w i new = at_end {P = AllWell} _ (
      then-Reads _ (lift-Reads _ db) w λ _ fs _. then-Reads _ (lift-Reads _ _) w λ _ fs _.
        then-Reads _ (check-Reads _ _ _) w λ _ fs _.
          then-Reads _ (query-Reads (λ t. select_email (normalize_email ext email) t.users) _) w
            λ row fs e. then-Reads _ (check-Reads _ _ _) w λ _ fs free.
              then-Reads _ (lift-joined-Reads _ _) w λ h fs _. exec_then _ _ _ w (
                done_last (
                  append-apart 0 db.tables.users _ w.0 i,
                  append-ids db.tables.users _ w.1 new,
                  append_unique db.tables.users _ w.2 (
                      select-Free (normalize_email ext email) db.tables.users w.0
                        (sym e ∙ not_free row free)),
                )))

  -- Update keeps the accounts well-formed: no row of the nil id, no two rows of one id or of one
  -- address. This holds however it ends.
  pub update-WellFormed :
      (now now' id : ℕ) (email name role : Str) (disabled : Option Bool) (actor : ℕ) (db : Db)
      → WellFormed db.tables.users
      → WellFormed (tables_of (update ext c now now' id email name role disabled actor db)).users
  unfolding update changed UserRows.save
  update-WellFormed now now' id email name role disabled actor db w = at_end {P = AllWell} _ (
      then-Reads _ (get_by_id-Reads id db) w λ u fs found. then-Reads _ (lift-Reads _ _) w λ _ fs _.
        then-Reads _ (check-Reads _ _ _) w λ _ fs _.
          then-Reads _ (guard_last_admin-Reads c u id _ disabled actor _) w λ _ fs _.
            then-Reads _ (guard_email-Reads id u (normalize_email ext email) _ w found) w
              λ _ fs beside. exec_then _ _ _ w (
                then-Ensures _
                  (revoke_if_users WellFormed _ _ _ _ (save-WellFormed _ db.tables.users w beside))
                  λ _ d h. done_last h))
