-- ===== src/Responses.antt =====
-- http/responses/: what the endpoints answer, and the bodies of the requests. Dates are written by
-- the parameter `format_time`; the zero time is 0.
use goravel_authkit.Base.{ℕ, Bool, List, map, Option, none, some, ◌==◌, if◌then◌else◌}
use goravel_authkit.Text.{Str, lit}
use goravel_authkit.Models.{User, AuditLog, ApiToken, two_factor_enabled, is_disabled}
use goravel_authkit.Http.{Platform}
use goravel_authkit.Services.Sessions.{SessionView}
use goravel_authkit.Services.AdminLogins.{AdminLoginPage}
use goravel_authkit.Repositories.LoginEvents.{LoginEventRecord}

pub record LoginRequest : Type 0 where
  pub email : Str
  pub password : Str
  pub remember : Bool

pub record UpdateProfileRequest : Type 0 where
  pub email : Str
  pub name : Str

pub record ChangePasswordRequest : Type 0 where
  pub current_password : Str
  pub new_password : Str

pub record CreateUserRequest : Type 0 where
  pub email : Str
  pub name : Str
  pub password : Str
  pub role : Str

pub record UpdateUserRequest : Type 0 where
  pub email : Str
  pub name : Str
  pub role : Str
  pub disabled : Option Bool

pub record TwoFactorChallengeRequest : Type 0 where
  pub code : Str
  pub recovery_code : Str

pub record ImpersonateRequest : Type 0 where
  pub guard : Str
  pub user_id : Str

pub record ImpersonatorRef : Type 0 where
  pub guard : Str
  pub id : Str
  pub email : Str

pub record UserResponse : Type 0 where
  pub id : Str
  pub email : Str
  pub name : Str
  pub role : Str
  pub two_factor_enabled : Bool
  pub disabled : Bool
  pub created_at : Str
  pub impersonated_by : Option ImpersonatorRef

pub record SessionResponse : Type 0 where
  pub id : Str
  pub ip : Str
  pub user_agent : Str
  pub current : Bool
  pub created_at : Str
  pub last_active_at : Str

pub record LoginHistoryEntry : Type 0 where
  pub action : Str
  pub ip : Str
  pub created_at : Str

pub record ApiTokenResponse : Type 0 where
  pub id : Str
  pub name : Str
  pub scopes : List Str
  pub expires_at : Str
  pub last_used_at : Option Str
  pub created_at : Str

pub record CreateApiTokenRequest : Type 0 where
  pub name : Str
  pub expires_at : Str
  pub scopes : List Str
  pub password : Str
  pub two_factor_code : Str

pub record AdminLoginEventResponse : Type 0 where
  pub id : Str
  pub user_id : Option Str
  pub user_name : Str
  pub user_email : Str
  pub action : Str
  pub ip : Str
  pub created_at : Str

pub record AdminLoginPageResponse : Type 0 where
  pub items : List AdminLoginEventResponse
  pub page : ℕ
  pub per_page : ℕ
  pub total : ℕ
  pub total_pages : ℕ

pub record MetaFeatures : Type 0 where
  pub user_management : Bool
  pub two_factor : Bool
  pub audit_log : Bool
  pub sessions : Bool
  pub impersonation : Bool
  pub api_tokens : Bool
  pub impersonation_sensitive_actions : Bool

pub record ApiTokenMeta : Type 0 where
  pub allow_impersonated_creation : Bool
  pub allowed_scopes : List Str
  pub default_lifetime_days : ℕ
  pub max_lifetime_days : ℕ
  pub max_per_user : ℕ

pub record MetaResponse : Type 0 where
  pub roles : List Str
  pub min_password_length : ℕ
  pub features : MetaFeatures
  pub api_tokens : Option ApiTokenMeta

pub data Body : Type 0 where
  error : (code message : Str) → Body
  message : Str → Body
  account : UserResponse → Body
  accounts : List UserResponse → Body
  two_factor_required : Body
  two_factor_enrollment : (secret url : Str) → Body
  recovery_codes : List Str → Body
  recovery_codes_status : (remaining : ℕ) → Body
  session_list : List SessionResponse → Body
  login_history : List LoginHistoryEntry → Body
  api_tokens : List ApiTokenResponse → Body
  issued_api_token : ApiTokenResponse → (token : Str) → Body
  admin_login_page : AdminLoginPageResponse → Body
  meta : MetaResponse → Body

pub record Answer : Type 0 where
  pub status : ℕ
  pub body : Body

abbrev pub json : (status : ℕ) → Body → Answer
json status body = record { status = status; body = body }

abbrev pub internal_error : Answer
internal_error = json 500 (error (lit "internal_error") (lit "Internal server error"))

abbrev pub invalid_body : Answer
invalid_body = json 400 (error (lit "validation_error") (lit "Invalid request body"))

abbrev pub authentication_required : Answer
authentication_required = json 401 (error (lit "unauthorized") (lit "Authentication required"))

abbrev text_of : Option Str → Str
text_of none = lit ""
text_of (some s) = s

module _ {S : Type 0} (p : Platform S) where
  unfoldable pub format_time : ℕ → Str
  format_time t = if t == 0 then lit "" else p.format_time t

  unfoldable pub new_user_response : User → UserResponse
  unfolding format_time
  new_user_response u = record {
    id = p.uuid_string u.id;
    email = u.email;
    name = text_of u.name;
    role = u.role;
    two_factor_enabled = two_factor_enabled u;
    disabled = is_disabled u;
    created_at = format_time u.created_at;
    impersonated_by = none;
  }

  unfoldable pub new_user_list_response : List User → List UserResponse
  new_user_list_response = map new_user_response

  abbrev session_response : SessionView → SessionResponse
  session_response v = record {
    id = p.uuid_string v.id;
    ip = v.ip;
    user_agent = v.user_agent;
    current = v.is_current;
    created_at = format_time v.created_at;
    last_active_at = format_time v.last_active_at;
  }

  unfoldable pub new_session_list_response : List SessionView → List SessionResponse
  new_session_list_response = map session_response

  abbrev history_entry : AuditLog → LoginHistoryEntry
  history_entry a = record { action = a.action; ip = a.ip; created_at = format_time a.created_at }

  unfoldable pub new_login_history_response : List AuditLog → List LoginHistoryEntry
  new_login_history_response = map history_entry

  unfoldable pub new_api_token_response : ApiToken → ApiTokenResponse
  new_api_token_response t = record {
    id = p.uuid_string t.id;
    name = t.name;
    scopes = t.scopes;
    expires_at = p.format_time t.expires_at;
    last_used_at = elim t.last_used_at [ none ↦ none | some at ↦ some (p.format_time at) ];
    created_at = p.format_time t.created_at;
  }

  abbrev event_response : LoginEventRecord → AdminLoginEventResponse
  event_response r = record {
    id = p.uuid_string r.id;
    user_id = elim r.user_id [ none ↦ none | some id ↦ some (p.uuid_string id) ];
    user_name = text_of r.user_name;
    user_email = r.user_email;
    action = r.action;
    ip = r.ip;
    created_at = format_time r.created_at;
  }

  unfoldable pub new_admin_login_page_response : AdminLoginPage → AdminLoginPageResponse
  new_admin_login_page_response page = record {
    items = map event_response page.items;
    page = page.page;
    per_page = page.per_page;
    total = page.total;
    total_pages = page.total_pages;
  }
