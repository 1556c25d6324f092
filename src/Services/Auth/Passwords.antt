-- ===== src/Services/Auth/Passwords.antt =====
-- services/auth.go: whom a password lets in, and what changing it does.
use goravel_authkit.Base.{
  ℕ, ◌≡◌, refl, sym, ◌∙◌, Bool, true, false, List, [], ◌∷◌, Option, none, some, arith, first,
}
use goravel_authkit.Text.{Str, lit, str_eq, trim_space, trim_left}
use goravel_authkit.Errors.{invalid_credentials, Result, ok, err}
use goravel_authkit.Models.{User}
use goravel_authkit.External.{External}
use goravel_authkit.Store.{Db, Tables, done, fail, machine, branch}
use goravel_authkit.Store.Laws.{
  Reads, Reads-then, Reads-imp, query-Reads, check-Reads, fail-Reads, done-Reads,
}
use goravel_authkit.Repositories.Users
use goravel_authkit.Repositories.Users.Laws.{unless_nil-some, select_id-first}
use goravel_authkit.Repositories.Users.{select_email, select_id, with_id, set_password, unless_nil}
use goravel_authkit.Services.Validation.{normalize_email, validate_email, validate_password}
use goravel_authkit.Services.Auth.{authenticate, verified, check_hash, change_password, is_ok}

validate_password-set :
    (password : Str) (n : ℕ)
    → validate_password password n ≡ ok tt
    → str_eq password (lit "") ≡ false
unfolding validate_password str_eq trim_space trim_left
validate_password-set [] n e = cc
validate_password-set (c ∷ s) n e = refl

is_ok_lem : (r : Result (Unit {0})) → is_ok r ≡ true → r ≡ ok tt
is_ok_lem (ok a) e = refl
is_ok_lem (err x) e = cc

abbrev pub with_password : User → Str → ℕ → User
with_password u hash at = record u { password_hash = some hash; password_changed_at = at }

first-email :
    (email hash : Str) (id at : ℕ) (us : List User) (v : User)
    → first (λ u. str_eq u.email email) us ≡ some v
    → v.id ≡ id
    → first (λ u. str_eq u.email email) (set_password id hash at us)
      ≡ some (with_password v hash at)
unfolding set_password
first-email email hash id at [] v e same = cc
first-email email hash id at (w ∷ us) v e same = ground (arith, first-email email hash id at us v)

select_email-set_password :
    (email hash : Str) (id at : ℕ) (us : List User) (v : User)
    → select_email email us ≡ some v
    → v.id ≡ id
    → select_email email (set_password id hash at us) ≡ some (with_password v hash at)
unfolding select_email unless_nil
select_email-set_password email hash id at us v e same =
    let row = unless_nil-some (first (λ u. str_eq u.email email) us) v e in
    rw (first-email email hash id at us v row.0 same) (ground arith)

first-own :
    (hash : Str) (id at : ℕ) (us : List User) (v : User)
    → first (with_id id) us ≡ some v
    → first (with_id id) (set_password id hash at us) ≡ some (with_password v hash at)
unfolding set_password
first-own hash id at [] v e = cc
first-own hash id at (w ∷ us) v e = ground (arith, first-own hash id at us v)

pub select_id-set_password :
    (hash : Str) (id at : ℕ) (us : List User) (v : User)
    → select_id id us ≡ some v
    → select_id id (set_password id hash at us) ≡ some (with_password v hash at)
unfolding select_id unless_nil
select_id-set_password hash id at us v e =
    let row = unless_nil-some (first (with_id id) us) v e in
    rw (first-own hash id at us v row.0) (ground arith)

module _ (ext : External) where
  verified-Reads :
      (row : Option User) (password : Str) (db : Db)
      → Reads
          (λ u. (row ≡ some u) × (check_hash ext password u.password_hash ≡ true))
          db.tables
          (verified ext row password db)
  unfolding verified
  verified-Reads none password db = fail-Reads
  verified-Reads (some u) password db =
      Reads-then _ (check-Reads _ _ _)
        λ _ fs _. Reads-then _ (check-Reads _ _ _) λ _ fs good. done-Reads (refl, good)

  -- Authenticate changes nothing, and whom it returns has the normalised address that was given,
  -- which is a valid one, and a hash that the password fits.
  pub authenticate-genuine :
      (email password : Str) (db : Db)
      → Reads
          (λ u.
            (select_email (normalize_email ext email) db.tables.users ≡ some u)
            × (check_hash ext password u.password_hash ≡ true)
            × (validate_email ext (normalize_email ext email) ≡ ok tt))
          db.tables
          (authenticate ext email password db)
  unfolding authenticate Users.find_by_email
  authenticate-genuine email password db = Reads-then _ (check-Reads _ _ _) λ _ fs valid.
      Reads-then _ (query-Reads (λ t. select_email (normalize_email ext email) t.users) _)
        λ row fs found.
          Reads-imp _ (verified-Reads row password _)
            λ u h. (sym found ∙ h.0, h.1, is_ok_lem _ (ground arith))

  abbrev at_rest : Tables → Db
  at_rest tables = record { tables = tables; faults = [] }

  authenticate_lem :
      (email password hash : Str) (at : ℕ) (tables : Tables) (v : User) (fits : Bool)
      → validate_email ext (normalize_email ext email) ≡ ok tt
      → str_eq password (lit "") ≡ false
      → select_email (normalize_email ext email) tables.users ≡ some (with_password v hash at)
      → str_eq hash (lit "") ≡ false
      → ext.hash_check password hash ≡ fits
      → authenticate ext email password (at_rest tables)
        ≡ branch fits (done (with_password v hash at)) (fail invalid_credentials) (at_rest tables)
  unfolding authenticate verified machine Users.find_by_email
  authenticate_lem email password hash at tables v true valid set found full e =
      rw (valid, set, found, full, e) refl
  authenticate_lem email password hash at tables v false valid set found full e =
      rw (valid, set, found, full, e) refl

  pub change_lem :
      (keeps : ℕ → ℕ) (min_pw_len salt now id : ℕ) (current new hash : Str) (tables : Tables)
      (u : User)
      → select_id id tables.users ≡ some u
      → check_hash ext current u.password_hash ≡ true
      → validate_password new min_pw_len ≡ ok tt
      → str_eq new current ≡ false
      → ext.hash_make salt new ≡ ok hash
      → change_password ext keeps min_pw_len salt now id current new (at_rest tables)
        ≡ done
            (keeps now)
            (at_rest (record tables { users = set_password id hash (keeps now) tables.users }))
  unfolding change_password machine Users.find_by_id Users.update_password
  change_lem keeps min_pw_len salt now id current new hash tables u found fits valid differs
        hashed =
      rw
        (
          found,
          fits,
          valid,
          differs,
          hashed,
          select_id-set_password hash id (keeps now) tables.users u found,
        )
        refl

  -- After a change of password that the rules allow, the answer is the time that the row keeps,
  -- the new password signs in and the old one does not. The address belongs to the account, the
  -- hash fits the new password and not the old, and no call fails.
  pub change_password-authenticate :
      (keeps : ℕ → ℕ) (min_pw_len salt now id : ℕ) (email current new hash : Str) (tables : Tables)
      (u : User)
      → select_id id tables.users ≡ some u
      → select_email (normalize_email ext email) tables.users ≡ some u
      → validate_email ext (normalize_email ext email) ≡ ok tt
      → check_hash ext current u.password_hash ≡ true
      → str_eq current (lit "") ≡ false
      → validate_password new min_pw_len ≡ ok tt
      → str_eq new current ≡ false
      → ext.hash_make salt new ≡ ok hash
      → ext.hash_check new hash ≡ true
      → ext.hash_check current hash ≡ false
      → str_eq hash (lit "") ≡ false
      → (after : Tables) × (change_password ext keeps min_pw_len salt now id current new
            (at_rest tables)
          ≡ done (keeps now) (at_rest after))
        × (authenticate ext email new (at_rest after)
            ≡ done (with_password u hash (keeps now)) (at_rest after))
        × (authenticate ext email current (at_rest after)
            ≡ fail invalid_credentials (at_rest after))
  unfolding branch
  change_password-authenticate keeps min_pw_len salt now id email current new hash tables u found
        listed valid fits set strong differs hashed good bad full =
      let after : Tables = record tables {
        users = set_password id hash (keeps now) tables.users;
      } in
      let same = (select_id-first id tables.users u found).1 in
      let row =
        select_email-set_password (normalize_email ext email) hash id (keeps now) tables.users u
          listed same in
      (
        after,
        change_lem keeps min_pw_len salt now id current new hash tables u found fits strong differs
            hashed,
        authenticate_lem email new hash (keeps now) after u true valid
            (validate_password-set new min_pw_len strong) row full good,
        authenticate_lem email current hash (keeps now) after u false valid set row full bad,
      )
