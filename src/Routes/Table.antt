-- ===== src/Routes/Table.antt =====
-- routes/routes.go: the routes that register mounts, each with the middleware before its handler,
-- in order; routes/guards.go: the middleware for the routes of the host.
use goravel_authkit.Base.{ℕ, Bool, true, false, not, ◌&&◌, List, [], ◌∷◌, ◌++◌}
use goravel_authkit.Text.{Str, lit}
use goravel_authkit.Routes.{Options, effective, management_roles}

pub data Layer : Type 0 where
  start_session : Layer
  verify_origin : (trusted : List Str) → Layer
  rate_limit_by_ip : (attempts : ℕ) → Layer
  remember_login : (guard : Str) → Layer
  authenticated : (guard : Str) → Layer
  track_session : (guard : Str) → Layer
  reject_while_impersonating : (guard : Str) → Layer
  require_role : (guard : Str) → (roles : List Str) → Layer
  bearer_authenticated : (guard : Str) → (enabled : Bool) → (scopes : List Str) → Layer
  authenticate_any : (guard : Str) → (enabled : Bool) → (scopes : List Str) → Layer
  unless_bearer : Layer → Layer

pub data Method : Type 0 where
  get post put delete : Method

-- The methods of the controllers.
pub data Handler : Type 0 where
  show_meta login challenge : Handler
  logout me update_profile change_password login_history : Handler
  admin_logins : Handler
  list_sessions destroy_other_sessions destroy_session : Handler
  enable_two_factor confirm_two_factor disable_two_factor : Handler
  recovery_codes_status regenerate_recovery_codes : Handler
  list_tokens store_token destroy_tokens destroy_token : Handler
  start_impersonation stop_impersonation : Handler
  list_users store_user show_user update_user destroy_user set_user_password : Handler

pub record Route : Type 0 where
  pub method : Method
  pub path : Str
  pub layers : List Layer
  pub handler : Handler

abbrev pub when {ℓ} : {A : Type ℓ} → Bool → List A → List A
when true xs = xs
when false xs = []

abbrev pub route_at : Method → Str → Handler → List Layer → Route
route_at m path h layers = record { method = m; path = path; layers = layers; handler = h }

abbrev pub under : List Layer → List Route → List Route
under layers [] = []
under layers (r ∷ rs) = record r { layers = layers ++ r.layers } ∷ under layers rs

abbrev pub inside : Str → List Route → List Route
inside prefix [] = []
inside prefix (r ∷ rs) = record r { path = prefix ++ r.path } ∷ inside prefix rs

module _ (o : Options) where
  -- Sensitive actions are closed to a switched session.
  abbrev pub unless_sensitive : List Layer
  unless_sensitive =
      when (o.enable_impersonation && not o.impersonation_allow_sensitive_actions)
        (reject_while_impersonating o.guard ∷ [])

  abbrev pub limited : List Layer
  limited = rate_limit_by_ip o.rate_limit_ip_attempts ∷ []

  abbrev pub managed : List Layer
  managed = unless_sensitive ++ require_role o.guard (management_roles o) ∷ []

  abbrev pub public_routes : List Route
  public_routes =
      route_at get (lit "/meta") show_meta []
      ∷ under limited (
          route_at post (lit "/login") login []
          ∷ when o.enable_two_factor
              (route_at post (lit "/two-factor-challenge") challenge [] ∷ []))

  abbrev pub account_routes : List Route
  account_routes =
      route_at post (lit "/logout") logout []
      ∷ route_at get (lit "/me") me []
      ∷ route_at put (lit "/me") update_profile []
      ∷ route_at put (lit "/password") change_password (unless_sensitive ++ limited)
      ∷ []

  abbrev pub audit_routes : List Route
  audit_routes =
      route_at get (lit "/logins") login_history []
      ∷ route_at get (lit "/admin/logins") admin_logins managed
      ∷ []

  abbrev pub session_routes : List Route
  session_routes =
      route_at get (lit "/sessions") list_sessions []
      ∷ route_at delete (lit "/sessions") destroy_other_sessions []
      ∷ route_at delete (lit "/sessions/{id}") destroy_session []
      ∷ []

  abbrev pub two_factor_routes : List Route
  two_factor_routes =
      route_at post (lit "/two-factor") enable_two_factor []
      ∷ route_at post (lit "/two-factor/confirm") confirm_two_factor []
      ∷ route_at delete (lit "/two-factor") disable_two_factor []
      ∷ route_at get (lit "/two-factor/recovery-codes") recovery_codes_status []
      ∷ route_at post (lit "/two-factor/recovery-codes") regenerate_recovery_codes []
      ∷ []

  abbrev pub token_routes : List Route
  token_routes = under unless_sensitive (
      route_at get (lit "/api-tokens") list_tokens []
      ∷ route_at post (lit "/api-tokens") store_token limited
      ∷ route_at delete (lit "/api-tokens") destroy_tokens []
      ∷ route_at delete (lit "/api-tokens/{id}") destroy_token []
      ∷ [])

  abbrev pub impersonation_routes : List Route
  impersonation_routes =
      route_at post (lit "/impersonate") start_impersonation
        (reject_while_impersonating o.guard ∷ [])
      ∷ route_at post (lit "/impersonate/stop") stop_impersonation []
      ∷ []

  abbrev pub user_routes : List Route
  user_routes = under managed (
      route_at get (lit "/users") list_users []
      ∷ route_at post (lit "/users") store_user []
      ∷ route_at get (lit "/users/{id}") show_user []
      ∷ route_at put (lit "/users/{id}") update_user []
      ∷ route_at delete (lit "/users/{id}") destroy_user []
      ∷ route_at post (lit "/users/{id}/password") set_user_password []
      ∷ [])

  abbrev pub guarded_routes : List Route
  guarded_routes =
      account_routes
      ++ (when o.enable_audit_log audit_routes
          ++ (when o.enable_sessions session_routes
              ++ (when o.enable_two_factor two_factor_routes
                  ++ (when o.enable_api_tokens token_routes
                      ++ (when o.enable_impersonation impersonation_routes
                          ++ when o.enable_user_management user_routes)))))

  abbrev pub guarded : List Layer
  guarded =
      when o.enable_remember_me (remember_login o.guard ∷ [])
      ++ (authenticated o.guard ∷ when o.enable_sessions (track_session o.guard ∷ []))

  abbrev pub outer : List Layer
  outer = start_session ∷ when o.enable_csrf (verify_origin o.trusted_origins ∷ [])

  abbrev pub table : List Route
  table =
      inside (o.prefix ++ lit "/auth") (under outer (public_routes ++ under guarded guarded_routes))

-- register
unfoldable pub register : Options → List Route
register o = table (effective o)

-- Protect, ProtectRole, ProtectToken, ProtectAny
unfoldable pub protect : Options → (guard : Str) → List Layer
protect o guard =
    start_session
    ∷ (when o.enable_csrf (verify_origin o.trusted_origins ∷ []) ++ authenticated guard ∷ [])

unfoldable pub protect_role : Options → (guard : Str) → (roles : List Str) → List Layer
protect_role o guard roles =
    start_session
    ∷ (when o.enable_csrf (verify_origin o.trusted_origins ∷ [])
        ++ (authenticated guard ∷ require_role guard roles ∷ []))

unfoldable pub protect_token : Options → (guard : Str) → (scopes : List Str) → List Layer
protect_token o guard scopes = bearer_authenticated guard o.enable_api_tokens scopes ∷ []

unfoldable pub protect_any : Options → (guard : Str) → (scopes : List Str) → List Layer
protect_any o guard scopes =
    unless_bearer start_session
    ∷ (when o.enable_csrf (unless_bearer (verify_origin o.trusted_origins) ∷ [])
        ++ authenticate_any guard o.enable_api_tokens scopes ∷ [])
