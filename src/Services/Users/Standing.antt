-- ===== src/Services/Users/Standing.antt =====
-- services/users.go: proofs about what the administration of accounts keeps of them.
use goravel_authkit.Base.{
  ℕ, ◌≡◌, ◌≢◌, ◌≤◌, refl, Bool, false, List, [], ◌∷◌, ◌++◌, Option, arith, ◌==◌, All, All-keep,
  keep, Bool-cases, inl, inr,
}
use goravel_authkit.Text.{Str, str_eq}
use goravel_authkit.Models.{User}
use goravel_authkit.External.{External}
use goravel_authkit.Store.{Db, Tables, tables_of}
use goravel_authkit.Store.Laws.{
  then-Reads, query-Reads, check-Reads, lift-Reads, lift-joined-Reads, exec_then, done_last, at_end,
  then-Ensures,
}
use goravel_authkit.Repositories.Users as UserRows
use goravel_authkit.Repositories.Users.{is_active_with_role, select_email, with_id}
use goravel_authkit.Repositories.Users.Laws.{UniqueIds, admins}
use goravel_authkit.Services.Users.{Config, create, update, delete, set_password}
use goravel_authkit.Services.Users.Admins.{
  get_by_id-Reads, guard_delete-Reads, revoke_if_users, update-admins, delete-admins,
}
use goravel_authkit.Services.Users.Emails.{UniqueEmails}
use goravel_authkit.Services.Users.Uniqueness.{WellFormed, create-WellFormed, update-WellFormed}
use goravel_authkit.Services.Validation.{normalize_email}

keep-ids : (p : User → Bool) (us : List User) → UniqueIds us → UniqueIds (keep p us)
keep-ids p [] h = tt
keep-ids p (u ∷ us) h = elim (Bool-cases (p u)) [
  | inl t ↦ rw t (All-keep (λ (v : User). v.id ≢ u.id) p us h.0, keep-ids p us h.1)
  | inr f ↦ rw f (keep-ids p us h.1)
]

keep-emails : (p : User → Bool) (us : List User) → UniqueEmails us → UniqueEmails (keep p us)
keep-emails p [] h = tt
keep-emails p (u ∷ us) h = elim (Bool-cases (p u)) [
  | inl t ↦
      rw t (All-keep (λ (v : User). str_eq v.email u.email ≡ false) p us h.0, keep-emails p us h.1)
  | inr f ↦ rw f (keep-emails p us h.1)
]

keep-WellFormed : (p : User → Bool) (us : List User) → WellFormed us → WellFormed (keep p us)
keep-WellFormed p us w =
    (All-keep (λ (v : User). v.id ≢ 0) p us w.0, keep-ids p us w.1, keep-emails p us w.2)

module _ (id : ℕ) (hash : Str) (at : ℕ) where
  abbrev changed_rows : List User → List User
  changed_rows us = UserRows.set_password id hash at us

  rows-apart :
      (k : ℕ) (us : List User)
      → All (λ (v : User). v.id ≢ k) us
      → All (λ (v : User). v.id ≢ k) (changed_rows us)
  unfolding UserRows.set_password
  rows-apart k [] h = tt
  rows-apart k (u ∷ us) h = (ground arith, rows-apart k us h.1)

  rows-ids : (us : List User) → UniqueIds us → UniqueIds (changed_rows us)
  unfolding UserRows.set_password
  rows-ids [] h = tt
  rows-ids (u ∷ us) h = elim (Bool-cases (u.id == id)) [
    | inl t ↦ rw t (rows-apart u.id us h.0, rows-ids us h.1)
    | inr f ↦ rw f (rows-apart u.id us h.0, rows-ids us h.1)
  ]

  rows-free :
      (email : Str) (us : List User)
      → All (λ (v : User). str_eq v.email email ≡ false) us
      → All (λ (v : User). str_eq v.email email ≡ false) (changed_rows us)
  unfolding UserRows.set_password
  rows-free email [] h = tt
  rows-free email (u ∷ us) h = (ground arith, rows-free email us h.1)

  rows-emails : (us : List User) → UniqueEmails us → UniqueEmails (changed_rows us)
  unfolding UserRows.set_password
  rows-emails [] h = tt
  rows-emails (u ∷ us) h = elim (Bool-cases (u.id == id)) [
    | inl t ↦ rw t (rows-free u.email us h.0, rows-emails us h.1)
    | inr f ↦ rw f (rows-free u.email us h.0, rows-emails us h.1)
  ]

  rows-admins :
      (roles : List Str) (us : List User) → admins roles (changed_rows us) ≡ admins roles us
  unfolding UserRows.set_password
  rows-admins roles [] = refl
  rows-admins roles (u ∷ us) = ground (arith, rows-admins roles us)

append-admins :
    (roles : List Str) (us : List User) (v : User) → admins roles us ≤ admins roles (us ++ v ∷ [])
append-admins roles [] v = ground arith
append-admins roles (u ∷ us) v = ground (arith, append-admins roles us v)

-- The accounts are well-formed and some administrator is active.
abbrev pub Standing : Config → Tables → Type 0
Standing c t = WellFormed t.users × (1 ≤ admins c.management_roles t.users)

module _ (ext : External) (c : Config) (db : Db) (standing : Standing c db.tables) where
  abbrev HasAdmin : Tables → Type 0
  HasAdmin t = 1 ≤ admins c.management_roles t.users

  pub create-Standing :
      (id salt now : ℕ) (email name password role : Str)
      → id ≢ 0
      → All (λ (v : User). v.id ≢ id) db.tables.users
      → Standing c (tables_of (create ext c id salt now email name password role db))
  unfolding create UserRows.find_by_email UserRows.create
  create-Standing id salt now email name password role proper new = (
    create-WellFormed ext c id salt now email name password role db standing.0 proper new,
    at_end {P = HasAdmin} _ (
        then-Reads _ (lift-Reads _ db) one λ _ fs _. then-Reads _ (lift-Reads _ _) one λ _ fs _.
          then-Reads _ (check-Reads _ _ _) one λ _ fs _.
            then-Reads _ (query-Reads (λ t. select_email (normalize_email ext email) t.users) _) one
              λ row fs _. then-Reads _ (check-Reads _ _ _) one λ _ fs _.
                then-Reads _ (lift-joined-Reads _ _) one λ h fs _.
                  exec_then _ _ _ one (
                    done_last (omega (arith, append-admins c.management_roles db.tables.users _)))),
  )
    where
      one : 1 ≤ admins c.management_roles db.tables.users
      one = standing.1

  pub update-Standing :
      (now now' id : ℕ) (email name role : Str) (disabled : Option Bool) (actor : ℕ)
      → Standing c (tables_of (update ext c now now' id email name role disabled actor db))
  update-Standing now now' id email name role disabled actor = (
    update-WellFormed ext c now now' id email name role disabled actor db standing.0,
    update-admins ext c now now' id email name role disabled actor db standing.0.1 standing.1,
  )

  pub delete-Standing : (now id : ℕ) → Standing c (tables_of (delete ext c now id db))
  unfolding delete UserRows.delete
  delete-Standing now id = (
    at_end {P = λ t. WellFormed t.users} _ (
        then-Reads _ (get_by_id-Reads id db) standing.0 λ u fs _.
          then-Reads _ (guard_delete-Reads ext c u id _) standing.0 λ _ fs _.
            exec_then _ _ _ standing.0
              (revoke_if_users WellFormed _ _ _ _ (keep-WellFormed _ db.tables.users standing.0))),
    delete-admins ext c now id db standing.0.1 standing.1,
  )

  pub set_password-Standing :
      (salt now now' id : ℕ) (password : Str)
      → Standing c (tables_of (set_password ext c salt now now' id password db))
  unfolding set_password UserRows.update_password
  set_password-Standing salt now now' id password = at_end {P = Standing c} _ (
      then-Reads _ (get_by_id-Reads id db) standing λ u fs _.
        then-Reads _ (lift-Reads _ _) standing λ _ fs _.
          then-Reads _ (lift-joined-Reads _ _) standing λ hashed fs _. exec_then _ _ _ standing (
            then-Ensures _
              (revoke_if_users Sound _ _ _ _ (
                (
                  rows-apart id hashed now 0 db.tables.users standing.0.0,
                  rows-ids id hashed now db.tables.users standing.0.1,
                  rows-emails id hashed now db.tables.users standing.0.2,
                ),
                omega (
                  arith,
                  standing.1,
                  rows-admins id hashed now c.management_roles db.tables.users,
                ),
              ))
              λ _ d h. done_last h))
    where
      Sound : List User → Type 0
      Sound us = WellFormed us × (1 ≤ admins c.management_roles us)
