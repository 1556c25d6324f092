-- ===== src/Routes/Config.antt =====
-- routes/routes.go, routes/guards.go: the options of the configuration.
use goravel_authkit.Base.{
  int64, ℕ, ◌*◌, Bool, true, false, not, List, [], ◌∷◌, ◌++◌, Option, none, some, ltb,
  if◌then◌else◌,
}
use goravel_authkit.Text.{Str, lit, str_eq}
use goravel_authkit.Routes.{Options, default_options, second}

-- A value of the configuration: []string, []any with its strings, nil, or something else.
pub data Value : Type 0 where
  absent other : Value
  strings : List Str → Value
  anys : List (Option Str) → Value

-- The getters of the framework. Numbers that are not positive read as 0: the code uses none of
-- them.
pub record Config : Type 0 where
  pub get : (path : Str) → Value
  pub get_string : (path default : Str) → Str
  pub get_int : (path : Str) → ℕ
  pub get_bool : (path : Str) → (default : Bool) → Bool
  -- The keys under a path that holds a map, none where it does not.
  pub keys : (path : Str) → List Str

unfoldable pub only_strings : List (Option Str) → List Str
only_strings [] = []
only_strings (none ∷ vs) = only_strings vs
only_strings (some s ∷ vs) = s ∷ only_strings vs

unfoldable pub to_string_slice : Value → List Str
unfolding only_strings
to_string_slice absent = []
to_string_slice other = []
to_string_slice (strings ss) = ss
to_string_slice (anys vs) = only_strings vs

-- `if v := cfg.Get(path); v != nil { ... }`
unfoldable pub slice_or : Value → List Str → List Str
unfolding to_string_slice
slice_or absent fallback = fallback
slice_or v fallback = to_string_slice v

abbrev pub is_present : Value → Bool
is_present absent = false
is_present _ = true

abbrev pub day : ℕ
day = 24 * 3600 * second

module _ (cfg : Config) where
  -- `if v := cfg.GetInt(path); v > 0 { o.Field = v }`, in a unit.
  abbrev int_or : (path : Str) → (unit fallback : ℕ) → ℕ
  int_or path unit fallback =
      if ltb 0 (cfg.get_int path) then int64 (cfg.get_int path * unit) else fallback

  -- `if v := cfg.GetString(path); v != "" { o.Field = v }`
  abbrev string_or : (path fallback : Str) → Str
  string_or path fallback =
      if str_eq (cfg.get_string path (lit "")) (lit "")
      then fallback
      else cfg.get_string path (lit "")

  abbrev slice : (path : Str) → List Str
  slice path = to_string_slice (cfg.get path)

  abbrev text : (path : Str) → Str
  text path = cfg.get_string path (lit "")

  unfoldable pub options_from_config : Options
  unfolding to_string_slice slice_or
  options_from_config =
      let d = default_options in
      record {
        prefix = string_or (lit "authkit.route_prefix") d.prefix;
        guard = string_or (lit "authkit.guard") d.guard;
        min_password_length = int_or (lit "authkit.min_password_length") 1 d.min_password_length;
        rate_limit_ip_attempts =
            int_or (lit "authkit.rate_limit.ip_attempts") 1 d.rate_limit_ip_attempts;
        rate_limit_account_attempts =
            int_or (lit "authkit.rate_limit.account_attempts") 1 d.rate_limit_account_attempts;
        rate_limit_password_attempts =
            int_or (lit "authkit.rate_limit.password_attempts") 1 d.rate_limit_password_attempts;
        rate_limit_window = int_or (lit "authkit.rate_limit.window") second d.rate_limit_window;
        enable_csrf = cfg.get_bool (lit "authkit.csrf.enabled") d.enable_csrf;
        trusted_origins = slice (lit "authkit.csrf.trusted_origins");
        enable_user_management =
            cfg.get_bool (lit "authkit.features.user_management") d.enable_user_management;
        enable_audit_log = cfg.get_bool (lit "authkit.features.audit_log") d.enable_audit_log;
        user_management_roles =
            slice_or (cfg.get (lit "authkit.user_management_roles")) d.user_management_roles;
        roles = slice_or (cfg.get (lit "authkit.roles")) d.roles;
        enable_two_factor = cfg.get_bool (lit "authkit.features.two_factor") d.enable_two_factor;
        two_factor_issuer = string_or (lit "authkit.two_factor.issuer") d.two_factor_issuer;
        recovery_code_count =
            int_or (lit "authkit.two_factor.recovery_codes") 1 d.recovery_code_count;
        enable_remember_me = cfg.get_bool (lit "authkit.features.remember_me") d.enable_remember_me;
        remember_lifetime = int_or (lit "authkit.remember.lifetime_days") day d.remember_lifetime;
        enable_sessions = cfg.get_bool (lit "authkit.features.sessions") d.enable_sessions;
        enable_api_tokens = cfg.get_bool (lit "authkit.features.api_tokens") d.enable_api_tokens;
        api_token_allow_impersonated_creation =
            cfg.get_bool (lit "authkit.api_tokens.allow_impersonated_creation")
              d.api_token_allow_impersonated_creation;
        api_token_allowed_scopes = slice (lit "authkit.api_tokens.allowed_scopes");
        api_token_default_lifetime =
            int_or (lit "authkit.api_tokens.default_lifetime_days") day
              d.api_token_default_lifetime;
        api_token_max_lifetime =
            int_or (lit "authkit.api_tokens.max_lifetime_days") day d.api_token_max_lifetime;
        api_token_max_per_user =
            int_or (lit "authkit.api_tokens.max_per_user") 1 d.api_token_max_per_user;
        keep_api_tokens_on_password_change =
            not (cfg.get_bool (lit "authkit.api_tokens.revoke_on_password_change") true);
        -- In minutes.
        session_active_window =
            int_or (lit "session.lifetime") (60 * second) d.session_active_window;
        users_table = text (lit "authkit.tables.users");
        audit_table = text (lit "authkit.tables.audit");
        remember_tokens_table = text (lit "authkit.tables.remember_tokens");
        sessions_table = text (lit "authkit.tables.sessions");
        api_tokens_table = text (lit "authkit.tables.api_tokens");
        remember_cookie_name = text (lit "authkit.remember.cookie_name");
        enable_impersonation =
            cfg.get_bool (lit "authkit.impersonation.enabled") d.enable_impersonation;
        impersonation_allow_sensitive_actions =
            cfg.get_bool (lit "authkit.impersonation.allow_sensitive_actions")
              d.impersonation_allow_sensitive_actions;
        impersonation_roles = slice (lit "authkit.impersonation.roles");
        impersonation_target_guards = slice (lit "authkit.impersonation.target_guards");
        impersonation_protected_roles = slice (lit "authkit.impersonation.protected_roles");
      }

  -- The path of a key of one guard.
  abbrev pub at : (name key : Str) → Str
  at name key = lit "authkit.guards." ++ (name ++ (lit "." ++ key))

  unfoldable pub options_for_guard : (name : Str) → Options
  unfolding slice_or
  options_for_guard name =
      let o = options_from_config in
      record o {
        guard = name;
        prefix = cfg.get_string (at name (lit "prefix")) o.prefix;
        users_table = cfg.get_string (at name (lit "users_table")) (name ++ lit "_users");
        audit_table = cfg.get_string (at name (lit "audit_table")) (name ++ lit "_audit_logs");
        remember_tokens_table =
            cfg.get_string (at name (lit "remember_tokens_table")) (name ++ lit "_remember_tokens");
        sessions_table =
            cfg.get_string (at name (lit "sessions_table")) (name ++ lit "_auth_sessions");
        api_tokens_table =
            cfg.get_string (at name (lit "api_tokens_table")) (name ++ lit "_api_tokens");
        remember_cookie_name =
            cfg.get_string (at name (lit "remember_cookie_name"))
              (lit "authkit_" ++ (name ++ lit "_remember"));
        roles = slice_or (cfg.get (at name (lit "roles"))) o.roles;
        user_management_roles =
            slice_or (cfg.get (at name (lit "user_management_roles"))) o.user_management_roles;
        min_password_length = int_or (at name (lit "min_password_length")) 1 o.min_password_length;
        rate_limit_ip_attempts =
            int_or (at name (lit "rate_limit.ip_attempts")) 1 o.rate_limit_ip_attempts;
        rate_limit_account_attempts =
            int_or (at name (lit "rate_limit.account_attempts")) 1 o.rate_limit_account_attempts;
        rate_limit_password_attempts =
            int_or (at name (lit "rate_limit.password_attempts")) 1 o.rate_limit_password_attempts;
        rate_limit_window = int_or (at name (lit "rate_limit.window")) second o.rate_limit_window;
        two_factor_issuer = string_or (at name (lit "two_factor.issuer")) o.two_factor_issuer;
        recovery_code_count =
            int_or (at name (lit "two_factor.recovery_codes")) 1 o.recovery_code_count;
        remember_lifetime = int_or (at name (lit "remember.lifetime_days")) day o.remember_lifetime;
        impersonation_roles =
            slice_or (cfg.get (at name (lit "impersonation.roles"))) o.impersonation_roles;
        impersonation_target_guards =
            slice_or (cfg.get (at name (lit "impersonation.target_guards")))
              o.impersonation_target_guards;
        impersonation_protected_roles =
            slice_or (cfg.get (at name (lit "impersonation.protected_roles")))
              o.impersonation_protected_roles;
        impersonation_allow_sensitive_actions =
            cfg.get_bool (at name (lit "impersonation.allow_sensitive_actions"))
              o.impersonation_allow_sensitive_actions;
        enable_user_management =
            cfg.get_bool (at name (lit "features.user_management")) o.enable_user_management;
        enable_audit_log = cfg.get_bool (at name (lit "features.audit_log")) o.enable_audit_log;
        enable_two_factor = cfg.get_bool (at name (lit "features.two_factor")) o.enable_two_factor;
        enable_remember_me =
            cfg.get_bool (at name (lit "features.remember_me")) o.enable_remember_me;
        enable_sessions = cfg.get_bool (at name (lit "features.sessions")) o.enable_sessions;
        enable_api_tokens = cfg.get_bool (at name (lit "features.api_tokens")) o.enable_api_tokens;
        api_token_allow_impersonated_creation =
            cfg.get_bool (at name (lit "api_tokens.allow_impersonated_creation"))
              o.api_token_allow_impersonated_creation;
        api_token_allowed_scopes =
            slice_or (cfg.get (at name (lit "api_tokens.allowed_scopes")))
              o.api_token_allowed_scopes;
        api_token_default_lifetime =
            int_or (at name (lit "api_tokens.default_lifetime_days")) day
              o.api_token_default_lifetime;
        api_token_max_lifetime =
            int_or (at name (lit "api_tokens.max_lifetime_days")) day o.api_token_max_lifetime;
        api_token_max_per_user =
            int_or (at name (lit "api_tokens.max_per_user")) 1 o.api_token_max_per_user;
        keep_api_tokens_on_password_change =
            if is_present (cfg.get (at name (lit "api_tokens.revoke_on_password_change")))
            then not (cfg.get_bool (at name (lit "api_tokens.revoke_on_password_change")) true)
            else o.keep_api_tokens_on_password_change;
        enable_csrf = cfg.get_bool (at name (lit "csrf.enabled")) o.enable_csrf;
        trusted_origins =
            slice_or (cfg.get (at name (lit "csrf.trusted_origins"))) o.trusted_origins;
      }
