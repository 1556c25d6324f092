-- ===== src/Store/Laws.antt =====
-- Rules for what an action ensures of the tables, whether it returns or fails.
use mathlib.Core.Path.{subst}
use goravel_authkit.Base.{◌≡◌, refl, sym, Bool, true, false, List, Option, none, some}
use goravel_authkit.Text.{Str}
use goravel_authkit.Errors.{Err, Result, ok, err}
use goravel_authkit.Store.{
  Tables, Db, Outcome, done, fail, M, fault, exec, query, respond, and_then, joined, check, lift,
  later, tables_of, branch,
}

abbrev pub Post {ℓ τ} :
    {A : Type ℓ} → (A → Tables → Type τ) → (Tables → Type τ) → Outcome A → Type τ
Post Q E (done a d) = Q a d.tables
Post Q E (fail e d) = E d.tables

-- `Q` of the value and the tables if the action returns, `E` of the tables if it fails.
pub record Ensures {ℓ τ} {A : Type ℓ} (Q : A → Tables → Type τ) (E : Tables → Type τ)
    (o : Outcome A) : Type τ where
  pub holds : Post Q E o

-- The tables stay as they are, and `R` holds of the value.
pub record Reads {ℓ} {A : Type ℓ} (R : A → Type 0) (t : Tables) (o : Outcome A) : Type 0 where
  pub reads : Post (λ a u. (u ≡ t) × R a) (λ u. u ≡ t) o

module _ {ℓ κ τ} {A : Type ℓ} {B : Type κ} where
  pub then-Reads :
      {R : A → Type 0} {Q : B → Tables → Type τ} {E : Tables → Type τ} {t : Tables} {o : Outcome A}
      (k : A → M B)
      → Reads R t o
      → E t
      → ((a : A) (fs : List (Option Str))
          → R a
          → Ensures Q E (k a (record { tables = t; faults = fs })))
      → Ensures Q E (and_then o k)
  unfolding and_then
  then-Reads {Q} {E} {o = done a d} k r e go =
      subst (λ u. Ensures Q E (k a (record { tables = u; faults = d.faults }))) (sym r.reads.0)
        (go a d.faults r.reads.1)
  then-Reads {E} {o = fail x d} k r e go = record { holds = subst E (sym r.reads) e }

module _ {ℓ κ} {A : Type ℓ} {B : Type κ} where
  pub Reads-then :
      {R : A → Type 0} {Q : B → Type 0} {t : Tables} {o : Outcome A} (k : A → M B)
      → Reads R t o
      → ((a : A) (fs : List (Option Str))
          → R a
          → Reads Q t (k a (record { tables = t; faults = fs })))
      → Reads Q t (and_then o k)
  unfolding and_then
  Reads-then {Q} {t} {o = done a d} k r go =
      subst (λ u. Reads Q t (k a (record { tables = u; faults = d.faults }))) (sym r.reads.0)
        (go a d.faults r.reads.1)
  Reads-then {o = fail x d} k r go = record { reads = r.reads }

module _ {A : Type 0} where
  respond-Reads :
      {R : A → Type 0} (f : Option Str) (a : A) (t : Tables) (fs : List (Option Str))
      → R a
      → Reads R t (joined (respond f a t t fs))
  unfolding joined
  respond-Reads none a t fs r = record { reads = (refl, r) }
  respond-Reads (some msg) a t fs r = record { reads = refl }

  pub query-Reads :
      (f : Tables → A) (db : Db) → Reads (λ a. a ≡ f db.tables) db.tables (joined (query f db))
  unfolding query
  query-Reads f db = respond-Reads (fault db.faults) (f db.tables) db.tables (later db.faults) refl

  pub done-Reads : {R : A → Type 0} {a : A} {db : Db} → R a → Reads R db.tables (done a db)
  done-Reads r = record { reads = (refl, r) }

  pub fail-Reads : {R : A → Type 0} {e : Err} {db : Db} → Reads R db.tables (fail e db)
  fail-Reads = record { reads = refl }

  pub lift-Reads : (r : Result A) (db : Db) → Reads (λ a. r ≡ ok a) db.tables (lift r db)
  unfolding lift
  lift-Reads (ok a) db = record { reads = (refl, refl) }
  lift-Reads (err e) db = record { reads = refl }

  pub lift-joined-Reads :
      (r : Result A) (db : Db) → Reads (λ a. r ≡ ok a) db.tables (joined (lift r db))
  unfolding joined lift
  lift-joined-Reads (ok a) db = record { reads = (refl, refl) }
  lift-joined-Reads (err e) db = record { reads = refl }

pub check-Reads : (b : Bool) (e : Err) (db : Db) → Reads (λ _. b ≡ true) db.tables (check b e db)
unfolding check
check-Reads true e db = record { reads = (refl, refl) }
check-Reads false e db = record { reads = refl }

module _ {ℓ κ τ} {A : Type ℓ} {B : Type κ} where
  respond_then :
      {Q : B → Tables → Type τ} {E : Tables → Type τ} (f : Option Str) (a : A)
      (after before : Tables) (fs : List (Option Str)) (k : A → M B)
      → E before
      → Ensures Q E (k a (record { tables = after; faults = fs }))
      → Ensures Q E (and_then (joined (respond f a after before fs)) k)
  unfolding joined and_then
  respond_then none a after before fs k e h = h
  respond_then (some msg) a after before fs k e h = record { holds = e }

  -- A call that writes: it fails and changes nothing, or the rest goes on from the new tables.
  pub exec_then :
      {Q : B → Tables → Type τ} {E : Tables → Type τ} (f : Tables → A × Tables) (db : Db)
      (k : A → M B)
      → E db.tables
      → Ensures Q E
          (k (f db.tables).0 (record { tables = (f db.tables).1; faults = later db.faults }))
      → Ensures Q E (and_then (joined (exec f db)) k)
  unfolding exec
  exec_then f db k e h =
      respond_then (fault db.faults) (f db.tables).0 (f db.tables).1 db.tables (later db.faults) k e
        h

module _ {ℓ τ} {A : Type ℓ} where
  respond_last :
      {Q : A → Tables → Type τ} {E : Tables → Type τ} (f : Option Str) (a : A)
      (after before : Tables) (fs : List (Option Str))
      → E before
      → Q a after
      → Ensures Q E (joined (respond f a after before fs))
  unfolding joined
  respond_last none a after before fs e h = record { holds = h }
  respond_last (some msg) a after before fs e h = record { holds = e }

  pub exec_last :
      {Q : A → Tables → Type τ} {E : Tables → Type τ} (f : Tables → A × Tables) (db : Db)
      → E db.tables
      → Q (f db.tables).0 (f db.tables).1
      → Ensures Q E (joined (exec f db))
  unfolding exec
  exec_last f db e h =
      respond_last (fault db.faults) (f db.tables).0 (f db.tables).1 db.tables (later db.faults) e h

  pub done_last :
      {Q : A → Tables → Type τ} {E : Tables → Type τ} {a : A} {db : Db}
      → Q a db.tables
      → Ensures Q E (done a db)
  done_last h = record { holds = h }

  -- What holds of the tables however the action ends.
  pub at_end : {P : Tables → Type τ} (o : Outcome A) → Ensures (λ _. P) P o → P (tables_of o)
  at_end (done a d) h = h.holds
  at_end (fail e d) h = h.holds

module _ {A : Type 0} where
  pub branch-Reads :
      {R : A → Type 0} {t : Tables} (b : Bool) (x y : M A) (db : Db)
      → (b ≡ true → Reads R t (x db))
      → (b ≡ false → Reads R t (y db))
      → Reads R t (branch b x y db)
  unfolding branch
  branch-Reads true x y db h k = h refl
  branch-Reads false x y db h k = k refl

  pub Reads-imp :
      {R S : A → Type 0} {t : Tables} (o : Outcome A)
      → Reads R t o
      → ((a : A) → R a → S a)
      → Reads S t o
  Reads-imp (done a d) r f = record { reads = (r.reads.0, f a r.reads.1) }
  Reads-imp (fail e d) r f = record { reads = r.reads }

  pub branch-Ensures :
      {Q : A → Tables → Type 0} {E : Tables → Type 0} (b : Bool) (x y : M A) (db : Db)
      → (b ≡ true → Ensures Q E (x db))
      → (b ≡ false → Ensures Q E (y db))
      → Ensures Q E (branch b x y db)
  unfolding branch
  branch-Ensures true x y db h k = h refl
  branch-Ensures false x y db h k = k refl

module _ {τ} {A B : Type 0} where
  -- What the first action ensures is what the rest goes on from.
  pub then-Ensures :
      {R : A → Tables → Type τ} {Q : B → Tables → Type τ} {E : Tables → Type τ} {o : Outcome A}
      (k : A → M B)
      → Ensures R E o
      → ((a : A) (d : Db) → R a d.tables → Ensures Q E (k a d))
      → Ensures Q E (and_then o k)
  unfolding and_then
  then-Ensures {o = done a d} k h go = go a d h.holds
  then-Ensures {o = fail e d} k h go = record { holds = h.holds }

module _ {τ} {A : Type 0} where
  -- What an action ensures when it returns.
  pub on_return :
      {Q : A → Tables → Type τ} {E : Tables → Type τ} {o : Outcome A} {a : A} {d : Db}
      → Ensures Q E o
      → o ≡ done a d
      → Q a d.tables
  on_return {Q} {E} h e = (subst (Ensures Q E) e h).holds

  pub fail_last :
      {Q : A → Tables → Type τ} {E : Tables → Type τ} {x : Err} {db : Db}
      → E db.tables
      → Ensures Q E (fail x db)
  fail_last h = record { holds = h }

  pub then_imp :
      {Q R : A → Tables → Type τ} {E : Tables → Type τ} (o : Outcome A)
      → Ensures Q E o
      → ((a : A) (t : Tables) → Q a t → R a t)
      → Ensures R E o
  then_imp (done a d) h f = record { holds = f a d.tables h.holds }
  then_imp (fail e d) h f = record { holds = h.holds }
