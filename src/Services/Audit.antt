-- ===== src/Services/Audit.antt =====
-- services/audit.go: the entries that are written, and the recent sign-ins of one account.
pub mod Recent
use goravel_authkit.Base.{ℕ, List, [], ◌∷◌, Option, ◌==◌, if◌then◌else◌}
use goravel_authkit.Text.{Str, lit}
use goravel_authkit.Models.{AuditLog}
use goravel_authkit.Store.{M}
use goravel_authkit.Repositories.Audit

pub record AuditEntry : Type 0 where
  pub actor_id : Option ℕ
  pub actor_email : Str
  pub action : Str
  pub resource_type : Str
  pub resource_id : Option Str
  pub metadata : List (Str × Str)
  pub ip : Str

-- LoginActions
abbrev pub login_actions : List Str
login_actions = lit "auth.login" ∷ lit "auth.login_remember" ∷ []

-- gorm sets created_at to the time of the insert.
unfoldable pub entry_of : (id now : ℕ) → AuditEntry → AuditLog
entry_of id now e = record {
  id = id;
  actor_id = e.actor_id;
  actor_email = e.actor_email;
  action = e.action;
  resource_type = e.resource_type;
  resource_id = e.resource_id;
  metadata = e.metadata;
  ip = e.ip;
  created_at = now;
}

-- An error of the repository is passed on, behind a prefix of its text.
unfoldable pub log : (id now : ℕ) → AuditEntry → M (Unit {0})
log id now e = Audit.create (entry_of id now e)

unfoldable pub recent_logins : (user limit : ℕ) → M (List AuditLog)
recent_logins user limit =
    Audit.list_by_actor_actions user login_actions (if limit == 0 then 20 else limit)
