-- ===== src/Services/Remember/Accounts.antt =====
-- services/remember.go: the accounts across a call of Resolve.
use goravel_authkit.Base.{ℕ, ◌≡◌, refl, List, Option, none, some}
use goravel_authkit.Text.{Str}
use goravel_authkit.Models.{User, RememberToken}
use goravel_authkit.External.{External}
use goravel_authkit.Store.{Db, Tables, Outcome, done, fail, M, and_then, dropped}
use goravel_authkit.Store.Laws.{
  Ensures, then-Reads, query-Reads, lift-joined-Reads, exec_then, done_last, fail_last,
  branch-Ensures,
}
use goravel_authkit.Store.Calls.{exec-Ensures}
use goravel_authkit.Repositories.Remember
use goravel_authkit.Repositories.Remember.{select_selector}
use goravel_authkit.Services.Remember.{split_token, rotate, resolve_row, resolve, resolve_parts}
use goravel_authkit.Services.Remember.Rotation.{
  or_invalid-Reads, Anything, Genuine, resolve_parts_sound,
}

abbrev SameUsers : List User → Tables → Type 0
SameUsers users t = t.users ≡ users

module _ {B : Type 0} (users : List User) where
  -- A call that does not write accounts, and whose error is dropped.
  ignored_then :
      {A : Type 0} (o : Outcome A) (k : M B)
      → Ensures (λ _ t. t.users ≡ users) (SameUsers users) o
      → ((d : Db)
          → d.tables.users ≡ users
          → Ensures (λ (_ : B) t. t.users ≡ users) (SameUsers users) (k d))
      → Ensures
          (λ _ t. t.users ≡ users)
          (SameUsers users)
          (and_then (dropped o) (λ (_ : Unit {0}). k))
  unfolding and_then dropped
  ignored_then (done a d) k h go = go d h.holds
  ignored_then (fail e d) k h go = go d h.holds

module _ (ext : External) (ttl : ℕ) (users : List User) where
  rotate-users :
      (t : RememberToken) (now : ℕ) (bytes : Option (List ℕ)) (db : Db)
      → db.tables.users ≡ users
      → Ensures (λ _ u. u.users ≡ users) (SameUsers users) (rotate ext ttl t now bytes db)
  unfolding rotate Remember.rotate_validator
  rotate-users t now bytes db h =
      then-Reads _ (lift-joined-Reads _ _) h
        λ v fs _. exec_then _ _ _ h (branch-Ensures _ _ _ _ (λ _. done_last h) (λ _. done_last h))

  resolve_row-users :
      (t : RememberToken) (presented : Str) (now : ℕ) (bytes : Option (List ℕ)) (db : Db)
      → db.tables.users ≡ users
      → Ensures
          (λ _ u. u.users ≡ users)
          (SameUsers users)
          (resolve_row ext ttl t presented now bytes db)
  unfolding resolve_row Remember.delete Remember.delete_by_user
  resolve_row-users t presented now bytes db h =
      branch-Ensures _ _ _ _
        (λ _. ignored_then users _ _ (exec-Ensures _ db h h) λ d k. fail_last k)
        λ _.
          branch-Ensures _ _ _ _ (λ _. rotate-users t now bytes db h)
            λ _.
              branch-Ensures _ _ _ _ (λ _. done_last h)
                λ _. ignored_then users _ _ (exec-Ensures _ db h h) λ d k. fail_last k

  resolve_parts-users :
      (parts : Option (Str × Str)) (now : ℕ) (bytes : Option (List ℕ)) (db : Db)
      → db.tables.users ≡ users
      → Ensures
          (λ _ u. u.users ≡ users)
          (SameUsers users)
          (resolve_parts ext ttl parts now bytes db)
  unfolding Remember.find_by_selector
  resolve_parts-users none now bytes db h = fail_last h
  resolve_parts-users (some (selector, validator)) now bytes db h =
      then-Reads _ (query-Reads (λ t. select_selector selector t.remember_tokens) db) h λ row fs _.
        then-Reads _ (or_invalid-Reads row _) h
          λ t fs' _. resolve_row-users t (ext.sha256_hex validator) now bytes _ h

both :
    {A : Type 0} {P Q : A → Tables → Type 0} {F : Tables → Type 0} (o : Outcome A)
    → Ensures P Anything o
    → Ensures Q F o
    → Ensures (λ a t. P a t × Q a t) F o
both (done a d) h k = record { holds = (h.holds, k.holds) }
both (fail e d) h k = record { holds = k.holds }

-- The answer of Resolve is the owner of a genuine cookie, and the accounts are as before.
pub resolve-Ensures :
    (ext : External) (ttl : ℕ) (cookie : Str) (now : ℕ) (bytes : Option (List ℕ)) (db : Db)
    → Ensures
        (λ r t. Genuine ext cookie now db.tables.remember_tokens r.0 × (t.users ≡ db.tables.users))
        (λ t. t.users ≡ db.tables.users)
        (resolve ext ttl cookie now bytes db)
unfolding resolve
resolve-Ensures ext ttl cookie now bytes db =
    both (resolve ext ttl cookie now bytes db)
      (resolve_parts_sound ext ttl cookie (split_token cookie) now bytes db refl)
      (resolve_parts-users ext ttl db.tables.users (split_token cookie) now bytes db refl)
