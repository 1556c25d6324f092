-- ===== src/Models.antt =====
-- models/: the rows of the five tables. A uuid is a number with 0 for uuid.Nil; an instant is a
-- number of nanoseconds; a pointer that may be nil is an Option.
use goravel_authkit.Base.{ℕ, Bool, false, not, ◌&&◌, List, Option, none, some, ltb, is_some}
use goravel_authkit.Text.{Str, str_eq, lit}

-- models/user.go
pub record User : Type 0 where
  pub id : ℕ
  pub name : Option Str
  pub email : Str
  pub email_verified : Option ℕ
  pub image : Option Str
  pub password_hash : Option Str
  pub password_changed_at : ℕ
  pub role : Str
  pub disabled_at : Option ℕ
  pub two_factor_secret : Option Str
  pub two_factor_recovery_codes : Option Str
  pub two_factor_confirmed_at : Option ℕ
  pub two_factor_last_used_at : Option ℕ
  pub created_at : ℕ

-- p != nil && *p != ""
abbrev pub is_set : Option Str → Bool
is_set none = false
is_set (some s) = not (str_eq s (lit ""))

unfoldable pub two_factor_enabled : User → Bool
two_factor_enabled u = is_some u.two_factor_confirmed_at && is_set u.two_factor_secret

unfoldable pub is_disabled : User → Bool
is_disabled u = is_some u.disabled_at

-- models/remember_token.go
pub record RememberToken : Type 0 where
  pub id : ℕ
  pub user_id : ℕ
  pub selector : Str
  pub validator_hash : Str
  pub previous_validator_hash : Str
  pub rotated_at : Option ℕ
  pub expires_at : ℕ

-- models/auth_session.go
pub record AuthSession : Type 0 where
  pub id : ℕ
  pub session_id : Str
  pub user_id : ℕ
  pub ip : Str
  pub user_agent : Str
  pub created_at : ℕ
  pub last_active_at : ℕ

-- models/api_token.go
pub record ApiToken : Type 0 where
  pub id : ℕ
  pub user_id : ℕ
  pub name : Str
  pub selector : Str
  pub validator_hash : Str
  pub scopes : List Str
  pub expires_at : ℕ
  pub last_used_at : Option ℕ
  pub revoked_at : Option ℕ
  pub created_at : ℕ

unfoldable pub active : ApiToken → ℕ → Bool
active t now = not (is_some t.revoked_at) && ltb now t.expires_at

-- models/audit_log.go
pub record AuditLog : Type 0 where
  pub id : ℕ
  pub actor_id : Option ℕ
  pub actor_email : Str
  pub action : Str
  pub resource_type : Str
  pub resource_id : Option Str
  pub metadata : List (Str × Str)
  pub ip : Str
  pub created_at : ℕ

-- services/twofactor.go: one recovery code as it is stored.
pub record RecoveryCode : Type 0 where
  pub hash : Str
  pub used_at : Option ℕ
