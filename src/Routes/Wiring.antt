-- ===== src/Routes/Wiring.antt =====
-- routes/routes.go: the controllers and services that register builds from the options of a guard.
-- `hook` is the policy that the host has registered, and `others` the accounts of other guards.
use goravel_authkit.Base.{
  ◌/◌, Bool, not, ◌&&◌, List, [], ◌∷◌, ◌++◌, map, Option, none, some, if◌then◌else◌,
}
use goravel_authkit.Text.{Str, lit, str_eq}
use goravel_authkit.Models.{User}
use goravel_authkit.Errors.{Result}
use goravel_authkit.Services.Validation.{min_length_or_default}
use goravel_authkit.Services.Impersonation.{Policy, Principal}
use goravel_authkit.Services.Remember.{new_remember}
use goravel_authkit.Services.Sessions.{new_sessions}
use goravel_authkit.Services.ApiTokens as TokenService
use goravel_authkit.Responses.{MetaResponse, ApiTokenMeta}
use goravel_authkit.Controllers.{SignIn}
use goravel_authkit.Controllers.Auth.{AuthController}
use goravel_authkit.Controllers.Users.{UsersController}
use goravel_authkit.Controllers.ActiveSessions.{SessionsController}
use goravel_authkit.Controllers.PersonalTokens.{ApiTokensController}
use goravel_authkit.Controllers.Impersonation.{ImpersonationController}
use goravel_authkit.Routes.{Options, management_roles}
use goravel_authkit.Routes.Config.{Config, day}
use goravel_authkit.Routes.Guards.{guard_options}

abbrev pub Hook : Type 0
Hook = Option (Principal → Str → Principal → Result Bool)

-- NewImpersonation
abbrev pub gate_of : Hook → Options → Policy
gate_of hook o = record {
  roles = o.impersonation_roles;
  target_guards = o.impersonation_target_guards;
  protected_roles = o.impersonation_protected_roles;
  hook = hook;
}

abbrev without : (guard : Str) → List (Str × Policy) → List (Str × Policy)
without guard [] = []
without guard ((g, policy) ∷ actors) =
    let rest = without guard actors in if str_eq g guard then rest else (g, policy) ∷ rest

-- The loop over the guards: a later guard of a name takes the place of an earlier one.
unfoldable pub delegation_actors : Hook → List Options → List (Str × Policy) → List (Str × Policy)
delegation_actors hook [] actors = actors
delegation_actors hook (o ∷ guards) actors =
    let left = without o.guard actors in
    delegation_actors hook guards
      (if o.enable_impersonation then (o.guard, gate_of hook o) ∷ left else left)

-- Each takes the options after `effective`.
module _ (o : Options) where
  abbrev pub allows_impersonated_creation : Bool
  allows_impersonated_creation =
      o.api_token_allow_impersonated_creation && o.impersonation_allow_sensitive_actions

  unfoldable pub sign_in_of : SignIn
  sign_in_of = record {
    guard = o.guard;
    audit = o.enable_audit_log;
    remember = if o.enable_remember_me then some (new_remember o.remember_lifetime) else none;
    sessions = o.enable_sessions;
  }

  unfoldable pub auth_controller_of : AuthController
  unfolding sign_in_of
  auth_controller_of = record {
    sign_in = sign_in_of;
    two_factor = o.enable_two_factor;
    api_tokens = o.enable_api_tokens;
    revoke_api_tokens_on_password_change = not o.keep_api_tokens_on_password_change;
    min_pw_len = min_length_or_default o.min_password_length;
  }

  unfoldable pub users_controller_of : UsersController
  users_controller_of = record {
    users = record {
      min_pw_len = min_length_or_default o.min_password_length;
      roles = o.roles;
      management_roles = management_roles o;
      api_tokens = o.enable_api_tokens;
      revoke_api_tokens_on_password_change = not o.keep_api_tokens_on_password_change;
    };
    audit = o.enable_audit_log;
  }

  unfoldable pub sessions_controller_of : SessionsController
  sessions_controller_of = record {
    guard = o.guard;
    audit = o.enable_audit_log;
    window = new_sessions o.session_active_window;
  }

  abbrev tokens_of : TokenService.Config
  tokens_of =
      TokenService.new_api_tokens o.api_token_allowed_scopes o.api_token_max_lifetime
        o.api_token_max_per_user o.enable_two_factor

  -- `guards` are the options that Register or RegisterAll hands over.
  unfoldable pub api_tokens_controller_of : Hook → (guards : List Options) → ApiTokensController
  unfolding delegation_actors
  api_tokens_controller_of hook guards = record {
    tokens =
        if allows_impersonated_creation
        then record tokens_of {
          delegation_guard = o.guard;
          delegation_actors = delegation_actors hook (guards ++ o ∷ []) [];
        }
        else tokens_of;
    audit = o.enable_audit_log;
    guard = if allows_impersonated_creation then o.guard else lit "";
  }

  unfoldable pub impersonation_controller_of :
      Config → Hook → (others : Str → List User) → ImpersonationController
  impersonation_controller_of cfg hook others = record {
    guard = o.guard;
    guards = o.guard ∷ map (λ g. g.guard) (guard_options cfg);
    others = others;
    gate = gate_of hook o;
    audit = o.enable_audit_log;
  }

  abbrev token_meta : ApiTokenMeta
  token_meta = record {
    allow_impersonated_creation = allows_impersonated_creation;
    allowed_scopes = o.api_token_allowed_scopes;
    default_lifetime_days = o.api_token_default_lifetime / day;
    max_lifetime_days = o.api_token_max_lifetime / day;
    max_per_user = o.api_token_max_per_user;
  }

  unfoldable pub meta_of : MetaResponse
  meta_of = record {
    roles = o.roles;
    min_password_length = o.min_password_length;
    features = record {
      user_management = o.enable_user_management;
      two_factor = o.enable_two_factor;
      audit_log = o.enable_audit_log;
      sessions = o.enable_sessions;
      impersonation = o.enable_impersonation;
      api_tokens = o.enable_api_tokens;
      impersonation_sensitive_actions = o.impersonation_allow_sensitive_actions;
    };
    api_tokens = if o.enable_api_tokens then some token_meta else none;
  }
