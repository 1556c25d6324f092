-- ===== src/Repositories/Users.antt =====
-- repositories/users.go
pub mod Laws
use goravel_authkit.Base.{
  ℕ, Bool, true, false, not, ◌&&◌, List, [], ◌∷◌, ◌++◌, Option, none, some, ◌==◌, leb,
  if◌then◌else◌, first, keep, count, rewrite_where, length, is_some, is_empty,
}
use goravel_authkit.Text.{Str, str_eq, mem_str}
use goravel_authkit.Errors.{Err, record_not_found}
use goravel_authkit.Models.{User}
use goravel_authkit.Store.{Tables, M, exec, query, done, fail, ◌>>=◌, Db, Outcome}

-- A row whose id is uuid.Nil stands for "no row".
unfoldable pub unless_nil : Option User → Option User
unless_nil none = none
unless_nil (some u) = if u.id == 0 then none else some u

abbrev pub with_id : ℕ → User → Bool
with_id id u = u.id == id

unfoldable pub select_email : Str → List User → Option User
unfolding unless_nil
select_email email users = unless_nil (first (λ u. str_eq u.email email) users)

unfoldable pub select_id : ℕ → List User → Option User
unfolding unless_nil
select_id id users = unless_nil (first (with_id id) users)

unfoldable pub find_by_email : Str → M (Option User)
find_by_email email = query (λ t. select_email email t.users)

unfoldable pub find_by_id : ℕ → M (Option User)
find_by_id id = query (λ t. select_id id t.users)

-- role IN roles AND disabled_at IS NULL
abbrev pub is_active_with_role : List Str → User → Bool
is_active_with_role roles u = mem_str roles u.role && not (is_some u.disabled_at)

unfoldable pub active_excluding : List Str → ℕ → List User → ℕ
active_excluding roles exclude users =
    if is_empty roles
    then 0
    else if exclude == 0
    then count (is_active_with_role roles) users
    else count (λ u. is_active_with_role roles u && not (u.id == exclude)) users

unfoldable pub count_active_by_roles_excluding : List Str → ℕ → M ℕ
count_active_by_roles_excluding roles exclude = query (λ t. active_excluding roles exclude t.users)

-- Order("created_at asc"). Rows of one time keep their order.
unfoldable pub insert_oldest : User → List User → List User
insert_oldest u [] = u ∷ []
insert_oldest u (v ∷ rows) =
    let rest = insert_oldest u rows in
    if leb u.created_at v.created_at then u ∷ v ∷ rows else v ∷ rest

unfoldable pub oldest_first : List User → List User
unfolding insert_oldest
oldest_first [] = []
oldest_first (u ∷ rows) = insert_oldest u (oldest_first rows)

unfoldable pub list : M (List User)
unfolding oldest_first
list = query (λ t. oldest_first t.users)

unfoldable pub count_all : M ℕ
count_all = query (λ t. length t.users)

unfoldable pub create : User → M (Unit {0})
create u = exec (λ t. (tt, record t { users = t.users ++ u ∷ [] }))

-- Save writes all columns of the row with that primary key.
unfoldable pub save_row : User → List User → List User
save_row u = rewrite_where (with_id u.id) (λ _. u)

unfoldable pub save : User → M (Unit {0})
save u = exec (λ t. (tt, record t { users = save_row u t.users }))

unfoldable pub delete : User → M (Unit {0})
delete u = exec (λ t. (tt, record t { users = keep (λ v. not (v.id == u.id)) t.users }))

unfoldable pub set_password : ℕ → Str → ℕ → List User → List User
set_password id hash changed_at =
    rewrite_where (with_id id)
      (λ u. record u { password_hash = some hash; password_changed_at = changed_at })

unfoldable pub update_password : ℕ → Str → ℕ → M (Unit {0})
update_password id hash changed_at =
    exec (λ t. (tt, record t { users = set_password id hash changed_at t.users }))

unfoldable pub set_two_factor : ℕ → Option Str → Option Str → Option ℕ → List User → List User
set_two_factor id secret codes confirmed_at = rewrite_where (with_id id) (λ u. record u {
  two_factor_secret = secret;
  two_factor_recovery_codes = codes;
  two_factor_confirmed_at = confirmed_at;
})

unfoldable pub update_two_factor : ℕ → Option Str → Option Str → Option ℕ → M (Unit {0})
update_two_factor id secret codes confirmed_at =
    exec (λ t. (tt, record t { users = set_two_factor id secret codes confirmed_at t.users }))

abbrev pub or_not_found : Option User → M User
or_not_found none = fail record_not_found
or_not_found (some u) = done u

-- One transaction under a row lock: nothing is written unless `fn` returns a row. What `fn`
-- answers beside the row is the closure's captured variable.
unfoldable pub mutate_locked {ℓ} : {A : Type ℓ} → ℕ → (User → M (A × User)) → M A
unfolding find_by_id save
mutate_locked id fn = do row ← find_by_id id; u ← or_not_found row; r ← fn u; _ ← save r.1; done r.0
