-- ===== src/Services/TwoFactor/Attempts.antt =====
-- services/twofactor.go: a run of second-factor attempts, whatever the codes and the accounts, and
-- rules for what it keeps of one account.
use mathlib.Core.Path.{subst}
use goravel_authkit.Base.{
  ℕ, ◌≡◌, ◌≢◌, refl, sym, ap, ◌∙◌, Bool, List, [], ◌∷◌, Option, none, some, arith, ◌==◌, Bool-cases,
  inl, inr, first,
}
use goravel_authkit.Text.{Str}
use goravel_authkit.Errors.{ok}
use goravel_authkit.Models.{User, RecoveryCode}
use goravel_authkit.External.{External}
use goravel_authkit.Store.{
  Db, Tables, Outcome, done, fail, M, respond, and_then, exec, query, fault, later,
}
use goravel_authkit.Store.Laws.{
  Ensures, Reads, then-Reads, Reads-then, lift-Reads, check-Reads, done-Reads, fail-Reads,
}
use goravel_authkit.Repositories.Users
use goravel_authkit.Repositories.Users.{select_id, save_row, unless_nil, with_id, or_not_found}
use goravel_authkit.Services.TwoFactor.{
  match_totp_step, accept_step, is_fresh, verify_login_code, enrolled_or_internal, text_of,
  consume_recovery_code, store_spent, decode_recovery_codes, encode_recovery_codes,
}
use goravel_authkit.Services.TwoFactor.Recovery.{spend, hash_recovery_code}

-- The row that a lookup finds is the one that was saved over it.
first-save :
    (id : ℕ) (us : List User) (u v : User)
    → first (with_id id) us ≡ some u
    → v.id ≡ id
    → first (with_id id) (save_row v us) ≡ some v
unfolding save_row
first-save id [] u v e same = cc
first-save id (w ∷ us) u v e same = ground (arith, first-save id us u v)

pub select_id-save_row :
    (id : ℕ) (us : List User) (u v : User)
    → select_id id us ≡ some u
    → v.id ≡ u.id
    → select_id id (save_row v us) ≡ some v
unfolding select_id unless_nil
select_id-save_row id us u v e same =
    let (row, same', nonzero) = Users.Laws.select_id-first id us u e in
    rw (first-save id us u v row (same ∙ same')) (ground arith)

first-save_other :
    (id : ℕ) (us : List User) (v : User)
    → v.id ≢ id
    → first (with_id id) (save_row v us) ≡ first (with_id id) us
unfolding save_row
first-save_other id [] v ne = refl
first-save_other id (w ∷ us) v ne = ground (arith, first-save_other id us v)

select_id-save_other :
    (id : ℕ) (us : List User) (v : User)
    → v.id ≢ id
    → select_id id (save_row v us) ≡ select_id id us
unfolding select_id
select_id-save_other id us v ne = ap unless_nil (first-save_other id us v ne)

-- The account has a row, and `Q` holds of it.
abbrev pub Row : (Q : User → Type 0) → ℕ → Tables → Type 0
Row Q id t = (u : User) × (select_id id t.users ≡ some u) × Q u

same_row : {u v : User} (o : Option User) → o ≡ some u → o ≡ some v → u ≡ v
same_row o e f = ground arith

-- What a save of some account's row leaves of it.
save-Row :
    (Q : User → Type 0) (id saved : ℕ) (t : Tables) (v w : User)
    → select_id saved t.users ≡ some v
    → w.id ≡ v.id
    → (Q v → Q w)
    → Row Q id t
    → Row Q id (record t { users = save_row w t.users })
save-Row Q id saved t v w found same keeps (u, e, q) =
    let (row, same', nonzero) = Users.Laws.select_id-first saved t.users v found in
    elim (Bool-cases (saved == id)) [
      | inl own ↦
          let e' : select_id saved t.users ≡ some u =
            subst (λ n. select_id n t.users ≡ some u) {x = id} (ground arith) e in
          (
            w,
            subst (λ n. select_id n (save_row w t.users) ≡ some w) (ground arith)
                (select_id-save_row saved t.users v w found same),
            keeps (subst Q (same_row (select_id saved t.users) e' found) q),
          )
      | inr other ↦ (u, select_id-save_other id t.users w (ground arith) ∙ e, q)
    ]

module _ {A : Type 0} where
  respond-Reads :
      {R : A → Type 0} (f : Option Str) (a : A) (t : Tables) (fs : List (Option Str))
      → R a
      → Reads R t (respond f a t t fs)
  respond-Reads none a t fs r = record { reads = (refl, r) }
  respond-Reads (some msg) a t fs r = record { reads = refl }

  respond_then :
      {B : Type 0} {P : Tables → Type 0} (f : Option Str) (a : A) (b : B) (t t' : Tables)
      (fs : List (Option Str))
      → P t
      → P t'
      → Ensures (λ _. P) P (and_then (respond f a t' t fs) (λ _. done b))
  unfolding and_then
  respond_then none a b t t' fs p q = record { holds = q }
  respond_then (some msg) a b t t' fs p q = record { holds = p }

or_not_found-Reads :
    (row : Option User) (db : Db) → Reads (λ u. row ≡ some u) db.tables (or_not_found row db)
or_not_found-Reads none db = fail-Reads
or_not_found-Reads (some u) db = done-Reads refl

-- A locked change keeps what its closure's row keeps, whether it is written or not.
locked-Row :
    {A : Type 0} (Q : User → Type 0) (id locked : ℕ) (fn : User → M (A × User)) (db : Db)
    → ((u : User) (fs : List (Option Str))
        → Reads
            (λ r. (r.1.id ≡ u.id) × (Q u → Q r.1))
            db.tables
            (fn u (record { tables = db.tables; faults = fs })))
    → Row Q id db.tables
    → Ensures (λ _. Row Q id) (Row Q id) (Users.mutate_locked locked fn db)
unfolding Users.mutate_locked Users.find_by_id Users.save query exec
locked-Row Q id locked fn db closure row =
    then-Reads _
      (respond-Reads {R = λ r. r ≡ select_id locked db.tables.users} (fault db.faults) _ db.tables
        (later db.faults) refl)
      row
      λ r fs found. then-Reads _ (or_not_found-Reads r _) row λ u fs' is_row.
        then-Reads _ (closure u fs') row λ x fs'' kept.
          respond_then (fault fs'') tt x.0 db.tables _ (later fs'') row
            (save-Row Q id locked db.tables u x.1 (sym found ∙ is_row) kept.0 kept.1 row)

abbrev db_of : {A : Type 0} → Outcome A → Db
db_of (done a d) = d
db_of (fail e d) = d

enrolled-Row :
    (P : Tables → Type 0) (o : Outcome Bool)
    → Ensures (λ _. P) P o
    → P (db_of (enrolled_or_internal o)).tables
unfolding enrolled_or_internal
enrolled-Row P (done a d) h = h.holds
enrolled-Row P (fail e d) h = h.holds

-- One presented code: the clock, the account and the code.
pub data Attempt : Type 0 where
  login_code : (now id : ℕ) → (code : Str) → Attempt
  recovery_code : (nonce now id : ℕ) → (code : Str) → Attempt

module _ (ext : External) where
  -- The database that is left, however the call ends.
  abbrev pub attempt : Attempt → Db → Db
  attempt (login_code now id code) db = db_of (verify_login_code ext now id code db)
  attempt (recovery_code nonce now id code) db =
      db_of (consume_recovery_code ext nonce now id code db)

  abbrev pub run : List Attempt → Db → Db
  run [] db = db
  run (a ∷ attempts) db = run attempts (attempt a db)

  module _ (Q : User → Type 0) (id : ℕ)
      (login_keeps : (u : User) (step : Option ℕ) → Q u → Q (accept_step u step).1)
      (spend_keeps : (u : User) (nonce now : ℕ) (code enc : Str) (codes after : List RecoveryCode)
        → decode_recovery_codes ext (text_of u.two_factor_recovery_codes) ≡ ok codes
        → spend (hash_recovery_code ext code) now codes ≡ some after
        → encode_recovery_codes ext nonce after ≡ ok enc
        → Q u
        → Q (record u { two_factor_recovery_codes = some enc })) where
    accept_step-id : (u : User) (step : Option ℕ) → (accept_step u step).1.id ≡ u.id
    unfolding accept_step
    accept_step-id u none = refl
    accept_step-id u (some s) = elim (Bool-cases (is_fresh u.two_factor_last_used_at s)) [
      | inl e ↦ rw e refl
      | inr e ↦ rw e refl
    ]

    store_spent-Reads :
        (u : User) (nonce now : ℕ) (code : Str) (codes : List RecoveryCode)
        (spent : Option (List RecoveryCode)) (db : Db)
        → decode_recovery_codes ext (text_of u.two_factor_recovery_codes) ≡ ok codes
        → spend (hash_recovery_code ext code) now codes ≡ spent
        → Reads (λ r. (r.1.id ≡ u.id) × (Q u → Q r.1)) db.tables (store_spent ext nonce u spent db)
    store_spent-Reads u nonce now code codes none db decoded e = done-Reads (refl, λ q. q)
    store_spent-Reads u nonce now code codes (some after) db decoded e =
        Reads-then _ (lift-Reads (encode_recovery_codes ext nonce after) db) λ enc fs stored.
          done-Reads (refl, spend_keeps u nonce now code enc codes after decoded e stored)

    attempt-Row : (a : Attempt) (db : Db) → Row Q id db.tables → Row Q id (attempt a db).tables
    unfolding verify_login_code consume_recovery_code
    attempt-Row (login_code now who code) db row = enrolled-Row (Row Q id) _ (
        locked-Row Q id who _ db
          (λ u fs. Reads-then _ (check-Reads _ _ _) λ _ fs' _.
            Reads-then _ (lift-Reads _ _) λ secret fs'' _. done-Reads (
              accept_step-id u (match_totp_step ext secret code now),
              login_keeps u (match_totp_step ext secret code now),
            ))
          row)
    attempt-Row (recovery_code nonce now who code) db row = enrolled-Row (Row Q id) _ (
        locked-Row Q id who _ db
          (λ u fs. Reads-then _ (check-Reads _ _ _) λ _ fs' _.
            Reads-then _ (lift-Reads _ _)
              λ codes fs'' decoded. store_spent-Reads u nonce now code codes _ _ decoded refl)
          row)

    -- What every accepted or refused code keeps of the account, any run of attempts keeps.
    pub run-Row :
        (attempts : List Attempt) (db : Db) → Row Q id db.tables → Row Q id (run attempts db).tables
    run-Row [] db row = row
    run-Row (a ∷ attempts) db row = run-Row attempts (attempt a db) (attempt-Row a db row)
