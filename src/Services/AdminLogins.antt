-- ===== src/Services/AdminLogins.antt =====
-- services/admin_logins.go: the login history of all accounts, one page at a time.
pub mod Paging
use goravel_authkit.Base.{
  ℤ, pos, negsuc, ℕ, ◌+◌, ◌-◌, ◌/◌, Bool, true, false, not, ◌&&◌, ◌||◌, List, [], ◌∷◌, Option, none,
  some, ltb, leb, ◌==◌, if◌then◌else◌,
}
use goravel_authkit.Text.{Str, lit, str_eq, trim_space, to_lower, byte_len}
use goravel_authkit.Errors.{Err, validation, Result, ok, err}
use goravel_authkit.Store.{Db, Outcome, done, fail, M, ◌>>=◌, ◌>>◌, check, lift}
use goravel_authkit.Services.Audit.{login_actions}
use goravel_authkit.Repositories.LoginEvents
use goravel_authkit.Repositories.LoginEvents.{LoginEventRecord, LoginEventFilter}

abbrev pub default_page_size : ℕ
default_page_size = 20

abbrev pub max_page_size : ℕ
max_page_size = 100

pub record AdminLoginQuery : Type 0 where
  pub page : ℤ
  pub per_page : ℤ
  pub user : Str
  pub ip : Str
  pub method : Str
  pub sort : Str

pub record AdminLoginPage : Type 0 where
  pub items : List LoginEventRecord
  pub page : ℕ
  pub per_page : ℕ
  pub total : ℕ
  pub total_pages : ℕ

abbrev pub or_default : ℤ → (default : ℕ) → ℤ
or_default (pos n) default = pos (if n == 0 then default else n)
or_default (negsuc n) default = negsuc n

-- Is the number between 1 and the bound, if there is one?
abbrev is_between_1 : (bound : Option ℕ) → ℤ → Bool
is_between_1 none (pos n) = leb 1 n
is_between_1 (some bound) (pos n) = leb 1 n && leb n bound
is_between_1 bound (negsuc n) = false

-- The number, which is not negative.
abbrev magnitude : ℤ → ℕ
magnitude (pos n) = n
magnitude (negsuc n) = 0

-- The action of a method, "" for all.
unfoldable pub method_action : Str → Result Str
method_action method =
    if str_eq method (lit "")
    then ok (lit "")
    else if str_eq method (lit "password")
    then ok (lit "auth.login")
    else if str_eq method (lit "remember")
    then ok (lit "auth.login_remember")
    else err (validation (lit "method must be password or remember"))

-- Are the oldest first?
unfoldable pub sort_order : Str → Result Bool
sort_order sort =
    if str_eq sort (lit "") || str_eq sort (lit "desc")
    then ok false
    else if str_eq sort (lit "asc")
    then ok true
    else err (validation (lit "sort must be asc or desc"))

unfoldable pub total_pages : (total per_page : ℕ) → ℕ
total_pages total per_page = if total == 0 then 0 else (total + per_page - 1) / per_page

module _ (db_lower : Str → Str) (lower_table : ℕ → ℕ) where
  abbrev normalize : Str → Str
  normalize s = to_lower lower_table (trim_space s)

  unfoldable pub list : AdminLoginQuery → M AdminLoginPage
  list q = do
    let page = or_default q.page 1
    let per_page = or_default q.per_page default_page_size
    check (is_between_1 none page) (validation (lit "page must be at least 1"))
    check (is_between_1 (some max_page_size) per_page)
        (validation (lit "perPage must be between 1 and 100"))
    check (leb (byte_len (trim_space q.user)) 255)
        (validation (lit "user filter must be at most 255 characters"))
    check (leb (byte_len (trim_space q.ip)) 64)
        (validation (lit "IP filter must be at most 64 characters"))
    action ← lift (method_action (normalize q.method))
    oldest_first ← lift (sort_order (normalize q.sort))
    let filter : LoginEventFilter = record {
      actions = login_actions;
      user = trim_space q.user;
      ip = trim_space q.ip;
      method_action = action;
      oldest_first = oldest_first;
    }
    found ← LoginEvents.list db_lower lower_table filter (magnitude page) (magnitude per_page)
    done (record {
      items = found.0;
      page = magnitude page;
      per_page = magnitude per_page;
      total = found.1;
      total_pages = total_pages found.1 (magnitude per_page);
    })
