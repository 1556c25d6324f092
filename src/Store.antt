-- ===== src/Store.antt =====
-- The database as the services see it: the five tables of one guard, and for each call to come
-- whether it fails. A service method is a state transformer that returns a value or an error.
-- A call that fails leaves the tables as they are.
pub mod Laws
pub mod Calls
use goravel_authkit.Base.{Bool, true, false, List, [], ◌∷◌, Option, none, some}
use goravel_authkit.Text.{Str}
use goravel_authkit.Errors.{Err, internal, driver, Result, ok, err}
use goravel_authkit.Models.{User, RememberToken, AuthSession, ApiToken, AuditLog}

pub record Tables : Type 0 where
  pub users : List User
  pub remember_tokens : List RememberToken
  pub sessions : List AuthSession
  pub api_tokens : List ApiToken
  pub audit_logs : List AuditLog

-- `some msg` in `faults` says that the call at that place fails with this text: the connection
-- is lost, or a constraint of the database is violated.
pub record Db : Type 0 where
  pub tables : Tables
  pub faults : List (Option Str)

pub data Outcome {ℓ} (A : Type ℓ) : Type ℓ where
  done : A → Db → Outcome A
  fail : Err → Db → Outcome A

abbrev pub M {ℓ} : Type ℓ → Type ℓ
M A = Db → Outcome A

unfoldable pub and_then {ℓ κ} : {A : Type ℓ} {B : Type κ} → Outcome A → (A → M B) → Outcome B
and_then (done a db) f = f a db
and_then (fail e db) f = fail e db

infixl 5 ◌>>=◌ ◌>>◌
abbrev pub ◌>>=◌ {ℓ κ} : {A : Type ℓ} {B : Type κ} → M A → (A → M B) → M B
◌>>=◌ m f db = and_then (m db) f

abbrev pub ◌>>◌ {ℓ} : {B : Type ℓ} → M (Unit {0}) → M B → M B
m >> k = m >>= λ _. k

unfoldable pub check : Bool → Err → M (Unit {0})
check true e = done tt
check false e = fail e

unfoldable pub lift {ℓ} : {A : Type ℓ} → Result A → M A
lift (ok a) = done a
lift (err e) = fail e

-- A branch of the code that acts.
unfoldable pub branch {ℓ} : {A : Type ℓ} → Bool → M A → M A → M A
branch true x y = x
branch false x y = y

abbrev pub fault : List (Option Str) → Option Str
fault [] = none
fault (f ∷ fs) = f

abbrev pub later : List (Option Str) → List (Option Str)
later [] = []
later (f ∷ fs) = fs

abbrev pub respond {ℓ} :
    {A : Type ℓ} → Option Str → A → Tables → Tables → List (Option Str) → Outcome A
respond none a after before fs = done a (record { tables = after; faults = fs })
respond (some msg) a after before fs = fail (driver msg) (record { tables = before; faults = fs })

-- One call of the database.
unfoldable pub exec {ℓ} : {A : Type ℓ} → (Tables → A × Tables) → M A
exec f db = let r = f db.tables in respond (fault db.faults) r.0 r.1 db.tables (later db.faults)

unfoldable pub query {ℓ} : {A : Type ℓ} → (Tables → A) → M A
unfolding exec
query f = exec (λ t. (f t, t))

unfoldable pub joined {ℓ} : {A : Type ℓ} → Outcome A → Outcome A
joined (done a db) = done a db
joined (fail e db) = fail (internal e) db

-- `if err != nil { return errors.Join(ErrInternal, err) }`
abbrev pub or_internal {ℓ} : {A : Type ℓ} → M A → M A
or_internal m db = joined (m db)

unfoldable pub dropped {ℓ} : {A : Type ℓ} → Outcome A → Outcome (Unit {0})
dropped (done a db) = done tt db
dropped (fail e db) = done tt db

-- `_ = m`: the error is dropped.
abbrev pub ignore {ℓ} : {A : Type ℓ} → M A → M (Unit {0})
ignore m db = dropped (m db)

abbrev pub tables_of {ℓ} : {A : Type ℓ} → Outcome A → Tables
tables_of (done a d) = d.tables
tables_of (fail e d) = d.tables

-- Unfold this name to run an action.
unfoldable pub machine : Unit {0}
unfolding and_then check lift branch exec query joined dropped
machine = tt

-- `if err != nil { ... }`: the error is dealt with.
unfoldable pub recovered {ℓ κ} :
    {A : Type ℓ} {B : Type κ} → Outcome A → (A → M B) → (Err → M B) → Outcome B
recovered (done a db) k h = k a db
recovered (fail e db) k h = h e db
