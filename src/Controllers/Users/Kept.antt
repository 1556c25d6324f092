-- ===== src/Controllers/Users/Kept.antt =====
-- http/controllers/users.go: proofs about what each handler keeps of the accounts.
use goravel_authkit.Base.{ℕ, ◌≢◌, sym, List, Option, none, some, All, ◌==◌}
use mathlib.Core.Path.{subst}
use goravel_authkit.Text.{Str, lit}
use goravel_authkit.Errors.{Result, ok, err}
use goravel_authkit.Models.{User}
use goravel_authkit.External.{External}
use goravel_authkit.Store.{Db, Tables, Outcome, done, fail, M, tables_of, respond, exec}
use goravel_authkit.Store.Laws.{Reads, query-Reads}
use goravel_authkit.Http.{Context, Platform, Request, W, follow, attempt}
use goravel_authkit.Http.Rules.{Gives, follow-Gives, choose-Gives, gives_now}
use goravel_authkit.Repositories.Users as UserRows
use goravel_authkit.Repositories.Audit as AuditRows
use goravel_authkit.Responses.{Answer, CreateUserRequest, UpdateUserRequest}
use goravel_authkit.Services.Audit as Trail
use goravel_authkit.Services.Audit.{AuditEntry}
use goravel_authkit.Services.Users
use goravel_authkit.Services.Users.Admins.{get_by_id-Reads}
use goravel_authkit.Services.Users.Standing.{
  Standing, create-Standing, update-Standing, delete-Standing, set_password-Standing,
}
use goravel_authkit.Controllers.{Stamp, write_audit, best_effort, parse_uuid_param, or_invalid_id}
use goravel_authkit.Controllers.Users.{
  UsersController, UserDraws, write_user_audit, index, show, store, update, destroy, set_password,
  written, deleted,
}

module _ {S : Type 0} (ext : External) (p : Platform S) (uc : UsersController) where
  -- What uuid.New draws is no id of a row, and not uuid.Nil.
  abbrev pub IsFresh : UserDraws → Db → Type 0
  IsFresh d db = (d.id ≢ 0) × All (λ (u : User). u.id ≢ d.id) db.tables.users

  abbrev pub Safe : Tables → Type 0
  Safe = Standing uc.users

  -- A handler that keeps the accounts safe.
  abbrev pub KeepsSafe : {A : Type 0} → W S A → Type 0
  KeepsSafe m = (c : Context S) → Safe c.db.tables → Gives (λ _ c'. Safe c'.db.tables) (m c)

  returned-Safe :
      {A : Type 0} (c : Context S) (o : Outcome A)
      → Safe (tables_of o)
      → Gives (λ _ c'. Safe c'.db.tables) (attempt (λ _. o) c)
  unfolding attempt
  returned-Safe c (done a db) h = gives_now h
  returned-Safe c (fail e db) h = gives_now h

  attempt-Safe :
      {A : Type 0} (m : M A) (c : Context S)
      → Safe (tables_of (m c.db))
      → Gives (λ _ c'. Safe c'.db.tables) (attempt m c)
  unfolding attempt
  attempt-Safe m c h = returned-Safe c (m c.db) h

  Reads-Safe :
      {A : Type 0} {R : A → Type 0} (t : Tables) (o : Outcome A)
      → Reads R t o
      → Safe t
      → Safe (tables_of o)
  Reads-Safe t (done a db) h s = subst Safe (sym h.reads.0) s
  Reads-Safe t (fail e db) h s = subst Safe (sym h.reads) s

  respond-Safe :
      {A : Type 0} (f : Option Str) (a : A) (after before : Tables) (fs : List (Option Str))
      → Safe before
      → Safe after
      → Safe (tables_of (respond f a after before fs))
  respond-Safe none a after before fs h k = k
  respond-Safe (some text) a after before fs h k = h

  log-Safe :
      (id now : ℕ) (e : AuditEntry) (db : Db)
      → Safe db.tables
      → Safe (tables_of (Trail.log id now e db))
  unfolding Trail.log AuditRows.create exec
  log-Safe id now e db s = respond-Safe _ _ _ db.tables _ s s

  audit-KeepsSafe :
      (req : Request) (s : Stamp) (action : Str) (resource : ℕ)
      → KeepsSafe (write_user_audit ext p uc req s action resource)
  unfolding write_user_audit write_audit best_effort
  audit-KeepsSafe req s action resource c h =
      follow-Gives _ (gives_now {Q = λ _ c'. Safe c'.db.tables} h) λ actor c1 h1.
        choose-Gives uc.audit _ _ c1
          (λ _.
            follow-Gives _
              (attempt-Safe (Trail.log s.id s.now _) c1 (log-Safe s.id s.now _ c1.db h1))
              λ _ c2 h2. gives_now h2)
          (λ _. gives_now h1)

  -- The audit entry and the answer of an operation that keeps the accounts safe.
  written-KeepsSafe :
      (req : Request) (s : Stamp) (action : Str) (status : ℕ) (r : Result User)
      → KeepsSafe (written ext p uc req s action status r)
  written-KeepsSafe req s action status (err e) c h = gives_now h
  written-KeepsSafe req s action status (ok u) c h =
      follow-Gives _ (audit-KeepsSafe req s action u.id c h) λ _ c1 h1. gives_now h1

  then_written :
      (m : M User) (req : Request) (s : Stamp) (action : Str) (status : ℕ) (c : Context S)
      → Safe (tables_of (m c.db))
      → Gives
          (λ _ c'. Safe c'.db.tables)
          (follow (attempt m c) (written ext p uc req s action status))
  then_written m req s action status c h =
      follow-Gives _ (attempt-Safe m c h) λ r c1 h1. written-KeepsSafe req s action status r c1 h1

  parsed-KeepsSafe :
      (raw : Str) (go : ℕ → W S Answer)
      → ((id : ℕ) → KeepsSafe (go id))
      → KeepsSafe (parse_uuid_param p raw go)
  unfolding parse_uuid_param
  parsed-KeepsSafe raw go h = chosen (p.uuid_parse raw)
    where
      chosen : (o : Option ℕ) → KeepsSafe (or_invalid_id o go)
      chosen none c s = gives_now s
      chosen (some id) c s = h id c s

  pub index-KeepsSafe : KeepsSafe (index ext p uc)
  unfolding index Users.list UserRows.list
  index-KeepsSafe c h =
      follow-Gives _
        (attempt-Safe Users.list c
          (Reads-Safe c.db.tables _ (query-Reads (λ t. UserRows.oldest_first t.users) c.db) h))
        λ r c1 h1. gives_now h1

  pub show-KeepsSafe : (id : Str) → KeepsSafe (show ext p uc id)
  unfolding show
  show-KeepsSafe id = parsed-KeepsSafe id _ λ n c h.
      follow-Gives _
        (attempt-Safe (Users.get_by_id n) c (Reads-Safe c.db.tables _ (get_by_id-Reads n c.db) h))
        λ r c1 h1. gives_now h1

  pub store-Safe :
      (body : Option CreateUserRequest) (req : Request) (d : UserDraws) (c : Context S)
      → IsFresh d c.db
      → Safe c.db.tables
      → Gives (λ _ c'. Safe c'.db.tables) (store ext p uc body req d c)
  unfolding store
  store-Safe none req d c fresh h = gives_now h
  store-Safe (some body) req d c fresh h = then_written _ req d.audit _ 201 c (
      create-Standing ext uc.users c.db h d.id d.salt d.now body.email body.name body.password
        body.role fresh.0 fresh.1)

  pub update-KeepsSafe :
      (id : Str) (body : Option UpdateUserRequest) (req : Request) (d : UserDraws)
      → KeepsSafe (update ext p uc id body req d)
  unfolding update follow
  update-KeepsSafe id none req d = parsed-KeepsSafe id _ λ n c h. gives_now h
  update-KeepsSafe id (some body) req d = parsed-KeepsSafe id _ λ n c h.
      choose-Gives _ _ _ c (λ _. gives_now h)
        λ _. then_written _ req d.audit _ 200 c (
          update-Standing ext uc.users c.db h d.now d.revoked_at n body.email body.name body.role
            body.disabled c.auth_user_id)

  pub destroy-KeepsSafe :
      (id : Str) (req : Request) (d : UserDraws) → KeepsSafe (destroy ext p uc id req d)
  unfolding destroy follow
  destroy-KeepsSafe id req d = parsed-KeepsSafe id _ λ n c h.
      choose-Gives (c.auth_user_id == n) _ _ c (λ _. gives_now h)
        λ _.
          follow-Gives _
            (attempt-Safe (Users.delete ext uc.users d.revoked_at n) c
              (delete-Standing ext uc.users c.db h d.revoked_at n))
            λ r c1 h1. removed n r c1 h1
    where
      removed : (n : ℕ) (r : Result (Unit {0})) → KeepsSafe (deleted ext p uc req d.audit n r)
      removed n (err e) c h = gives_now h
      removed n (ok u) c h =
          follow-Gives _ (audit-KeepsSafe req d.audit (lit "user.delete") n c h)
            λ _ c1 h1. gives_now h1

  pub reset-KeepsSafe :
      (id : Str) (password : Option Str) (req : Request) (d : UserDraws)
      → KeepsSafe (set_password ext p uc id password req d)
  unfolding set_password
  reset-KeepsSafe id none req d = parsed-KeepsSafe id _ λ n c h. gives_now h
  reset-KeepsSafe id (some password) req d = parsed-KeepsSafe id _ λ n c h.
      then_written _ req d.audit _ 200 c
        (set_password-Standing ext uc.users c.db h d.salt d.now d.revoked_at n password)
