-- ===== src/Controllers/Overview.antt =====
-- http/controllers/admin_logins.go and http/controllers/meta.go.
use goravel_authkit.Base.{ℕ}
use goravel_authkit.Text.{Str, lit}
use goravel_authkit.Errors.{Err, Result, ok, err, validation}
use goravel_authkit.Http.{Platform, W, ◌>>=◌, give, attempt}
use goravel_authkit.Responses.{
  Answer, json, error, admin_login_page, meta, internal_error, new_admin_login_page_response,
  MetaResponse,
}
use goravel_authkit.Services.AdminLogins
use goravel_authkit.Services.AdminLogins.{AdminLoginQuery, AdminLoginPage}
use goravel_authkit.Controllers.{cause, validation_message}

-- The numbers of the query, as they are bound; their defaults are filled in by the framework.
abbrev service_answer : Err → Answer
service_answer (validation detail) =
    json 400 (error (lit "validation_error") (validation_message detail))
service_answer _ = internal_error

abbrev page_answer : {S : Type 0} → Platform S → Result AdminLoginPage → Answer
page_answer p (err e) = service_answer (cause e)
page_answer p (ok page) = json 200 (admin_login_page (new_admin_login_page_response p page))

-- Index; `db_lower` is LOWER of the database.
unfoldable pub index_logins :
    {S : Type 0}
    → Platform S
    → (db_lower : Str → Str) → (lower_table : ℕ → ℕ) → AdminLoginQuery
    → W S Answer
unfolding cause validation_message
index_logins p db_lower lower_table q =
    attempt (AdminLogins.list db_lower lower_table q) >>= λ r. give (page_answer p r)

-- Show. A slice that is nil is [].
unfoldable pub show_meta : {S : Type 0} → MetaResponse → W S Answer
show_meta m = give (json 200 (meta m))
