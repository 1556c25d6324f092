-- ===== src/Routes.antt =====
-- routes/: the options of an instance, how the configuration of the host gives them, and the table
-- of the routes with what stands before each handler. The store of the rate limit is an object of
-- the host and no part of the options here.
pub mod Config
pub mod Table
pub mod Closed
pub mod Guards
pub mod Wiring
use goravel_authkit.Base.{ℕ, ◌*◌, Bool, true, false, List, [], ◌∷◌, ltb, if◌then◌else◌, is_empty}
use goravel_authkit.Text.{Str, lit, str_eq}
use goravel_authkit.Services.Validation.{default_min_password_length}
use goravel_authkit.Services.TwoFactor.{default_recovery_code_count}
use goravel_authkit.Services.Remember.{default_remember_lifetime}
use goravel_authkit.Services.Sessions.{default_session_active_window}
use goravel_authkit.Services.ApiTokens.{
  default_max_api_token_lifetime, default_max_api_tokens_per_user,
}

-- Durations are in nanoseconds. A list that is nil is [].
pub record Options : Type 0 where
  pub prefix : Str
  pub guard : Str
  pub min_password_length : ℕ
  pub rate_limit_ip_attempts : ℕ
  pub rate_limit_account_attempts : ℕ
  pub rate_limit_password_attempts : ℕ
  pub rate_limit_window : ℕ
  pub enable_csrf : Bool
  pub trusted_origins : List Str
  pub enable_user_management : Bool
  pub enable_audit_log : Bool
  pub user_management_roles : List Str
  pub roles : List Str
  pub enable_two_factor : Bool
  pub two_factor_issuer : Str
  pub recovery_code_count : ℕ
  pub enable_remember_me : Bool
  pub remember_lifetime : ℕ
  pub enable_sessions : Bool
  pub enable_api_tokens : Bool
  pub api_token_allow_impersonated_creation : Bool
  pub api_token_allowed_scopes : List Str
  pub api_token_default_lifetime : ℕ
  pub api_token_max_lifetime : ℕ
  pub api_token_max_per_user : ℕ
  pub keep_api_tokens_on_password_change : Bool
  pub session_active_window : ℕ
  pub users_table : Str
  pub audit_table : Str
  pub remember_tokens_table : Str
  pub sessions_table : Str
  pub api_tokens_table : Str
  pub remember_cookie_name : Str
  pub enable_impersonation : Bool
  pub impersonation_allow_sensitive_actions : Bool
  pub impersonation_roles : List Str
  pub impersonation_target_guards : List Str
  pub impersonation_protected_roles : List Str

abbrev pub second : ℕ
second = 1_000_000_000

abbrev pub default_api_token_lifetime : ℕ
default_api_token_lifetime = 30 * (24 * 3600) * second

abbrev pub admin_role : Str
admin_role = lit "admin"

abbrev pub default_options : Options
default_options = record {
  prefix = lit "/api/v1";
  guard = lit "admin";
  min_password_length = default_min_password_length;
  rate_limit_ip_attempts = 20;
  rate_limit_account_attempts = 5;
  rate_limit_password_attempts = 5;
  rate_limit_window = 60 * second;
  enable_csrf = true;
  trusted_origins = [];
  enable_user_management = true;
  enable_audit_log = true;
  user_management_roles = admin_role ∷ [];
  roles = [];
  enable_two_factor = true;
  two_factor_issuer = lit "";
  recovery_code_count = default_recovery_code_count;
  enable_remember_me = true;
  remember_lifetime = default_remember_lifetime;
  enable_sessions = true;
  enable_api_tokens = false;
  api_token_allow_impersonated_creation = false;
  api_token_allowed_scopes = [];
  api_token_default_lifetime = default_api_token_lifetime;
  api_token_max_lifetime = default_max_api_token_lifetime;
  api_token_max_per_user = default_max_api_tokens_per_user;
  keep_api_tokens_on_password_change = false;
  session_active_window = default_session_active_window;
  users_table = lit "";
  audit_table = lit "";
  remember_tokens_table = lit "";
  sessions_table = lit "";
  api_tokens_table = lit "";
  remember_cookie_name = lit "";
  enable_impersonation = false;
  impersonation_allow_sensitive_actions = false;
  impersonation_roles = [];
  impersonation_target_guards = [];
  impersonation_protected_roles = [];
}

abbrev pub or_default : ℕ → ℕ → ℕ
or_default value fallback = if ltb 0 value then value else fallback

abbrev pub text_or : Str → Str → Str
text_or value fallback = if str_eq value (lit "") then fallback else value

-- What register makes of options with zero values.
unfoldable pub effective : Options → Options
effective o = record o {
  prefix = text_or o.prefix default_options.prefix;
  guard = text_or o.guard default_options.guard;
  min_password_length = or_default o.min_password_length default_options.min_password_length;
  rate_limit_ip_attempts =
      or_default o.rate_limit_ip_attempts default_options.rate_limit_ip_attempts;
  rate_limit_account_attempts =
      or_default o.rate_limit_account_attempts default_options.rate_limit_account_attempts;
  rate_limit_password_attempts =
      or_default o.rate_limit_password_attempts default_options.rate_limit_password_attempts;
  rate_limit_window = or_default o.rate_limit_window default_options.rate_limit_window;
  api_token_default_lifetime =
      or_default o.api_token_default_lifetime default_options.api_token_default_lifetime;
  api_token_max_lifetime =
      or_default o.api_token_max_lifetime default_options.api_token_max_lifetime;
  api_token_max_per_user =
      or_default o.api_token_max_per_user default_options.api_token_max_per_user;
}

-- The roles that may manage users; never none.
unfoldable pub management_roles : Options → List Str
management_roles o =
    if is_empty o.user_management_roles then admin_role ∷ [] else o.user_management_roles
