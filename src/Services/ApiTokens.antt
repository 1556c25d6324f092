-- ===== src/Services/ApiTokens.antt =====
-- services/api_tokens.go: personal access tokens. The plaintext is "gak_", a selector, a dot and a
-- validator; the table keeps the validator's hash.
pub mod Scopes
pub mod ScopeOrder
pub mod ScopeLaws
pub mod Limit
pub mod Revocation
pub mod RoundTrip
pub mod Plaintext
use goravel_authkit.Base.{
  ℕ, ◌+◌, ◌*◌, Bool, true, false, not, ◌&&◌, ◌||◌, List, [], ◌∷◌, ◌++◌, Option, none, some, ltb,
  leb, ◌==◌, if◌then◌else◌, length, is_some,
}
use goravel_authkit.Text.{Str, lit, str_eq, trim_space}
use goravel_authkit.Errors.{
  Err, validation, unauthorized, forbidden, wrong_password, invalid_code, token_limit,
  invalid_api_token, not_found, Result, ok, err,
}
use goravel_authkit.Models.{User, ApiToken, is_disabled, two_factor_enabled, active}
use goravel_authkit.External.{External}
use goravel_authkit.Store.{
  Db, Outcome, done, fail, M, ◌>>=◌, ◌>>◌, check, lift, or_internal, branch,
}
use goravel_authkit.Repositories.Users
use goravel_authkit.Repositories.ApiTokens
use goravel_authkit.Services.TwoFactor.{verify_login_code}
use goravel_authkit.Services.Impersonation
use goravel_authkit.Services.Impersonation.{Principal, Policy}
use Scopes.{validate_scopes}
use Plaintext.{split_api_token, join_api_token, random_api_token_part}

abbrev pub second : ℕ
second = 1_000_000_000

abbrev pub default_max_api_token_lifetime : ℕ
default_max_api_token_lifetime = 365 * (24 * 3600) * second

abbrev pub default_max_api_tokens_per_user : ℕ
default_max_api_tokens_per_user = 20

abbrev pub api_token_last_used_interval : ℕ
api_token_last_used_interval = 5 * 60 * second

abbrev pub api_token_prune_retention : ℕ
api_token_prune_retention = 30 * (24 * 3600) * second

pub record Config : Type 0 where
  pub allowed_scopes : List Str
  pub max_lifetime : ℕ
  pub max_per_user : ℕ
  -- Is the two-factor service present?
  pub two_factor : Bool
  pub delegation_guard : Str
  -- The guards that may delegate, each with its policy; nil parts are absent entries.
  pub delegation_actors : List (Str × Policy)

unfoldable pub trimmed_scopes : List Str → List Str
trimmed_scopes [] = []
trimmed_scopes (s ∷ ss) = trim_space s ∷ trimmed_scopes ss

unfoldable pub new_api_tokens : List Str → ℕ → ℕ → Bool → Config
unfolding trimmed_scopes
new_api_tokens scopes max_lifetime max_per_user two_factor = record {
  allowed_scopes = trimmed_scopes scopes;
  max_lifetime = if ltb 0 max_lifetime then max_lifetime else default_max_api_token_lifetime;
  max_per_user = if ltb 0 max_per_user then max_per_user else default_max_api_tokens_per_user;
  two_factor = two_factor;
  delegation_guard = lit "";
  delegation_actors = [];
}

pub record IssueCommand : Type 0 where
  pub user_id : ℕ
  pub name : Str
  pub expires_at : ℕ
  pub scopes : List Str
  pub password : Str
  pub two_factor_code : Str

-- What the randomness and the clock give to one call of `issue`.
pub record Draws : Type 0 where
  pub id : ℕ
  pub now : ℕ
  -- The time at which `VerifyLoginCode` reads the clock.
  pub verify_now : ℕ
  pub selector_bytes : Option (List ℕ)
  pub validator_bytes : Option (List ℕ)

abbrev pub live_user : Option User → M User
live_user none = fail unauthorized
live_user (some u) = check (not (is_disabled u)) unauthorized >> done u

abbrev pub live_actor : Option User → M User
live_actor none = fail forbidden
live_actor (some u) = check (not (is_disabled u)) forbidden >> done u

abbrev pub or_invalid : Option ApiToken → M ApiToken
or_invalid none = fail invalid_api_token
or_invalid (some t) = done t

abbrev pub policy_of : Str → List (Str × Policy) → Option Policy
policy_of guard [] = none
policy_of guard ((g, p) ∷ rest) = if str_eq g guard then some p else policy_of guard rest

module _ (ext : External) (c : Config) where
  -- A token that an account issues for itself: its password, and its second factor if it has one.
  unfoldable pub prove_owner : User → IssueCommand → (now : ℕ) → M (Unit {0})
  prove_owner u cmd now =
      check (elim u.password_hash [ none ↦ false | some h ↦ ext.hash_check cmd.password h ])
        wrong_password
      >> branch (two_factor_enabled u)
          (check (c.two_factor && not (str_eq (trim_space cmd.two_factor_code) (lit "")))
              invalid_code
            >> (verify_login_code ext now u.id cmd.two_factor_code
                >>= (λ good. check good invalid_code)))
          (done tt)

  abbrev pub authorize_by : Option Policy → Principal → User → M (Unit {0})
  authorize_by none actor u = fail forbidden
  authorize_by (some policy) actor u = lift (
      Impersonation.authorize policy actor c.delegation_guard
        (record { guard = c.delegation_guard; user_id = u.id; email = u.email; role = u.role }))

  -- A token that an impersonating actor issues is authorised by the actor's policy.
  unfoldable pub prove_authority : Option Principal → User → IssueCommand → (now : ℕ) → M (Unit {0})
  prove_authority none u cmd now = prove_owner u cmd now
  prove_authority (some actor) u cmd now =
      authorize_by (policy_of actor.guard c.delegation_actors) actor u

  unfoldable pub store_token : User → IssueCommand → List Str → Draws → M (ApiToken × Str)
  store_token u cmd scopes d = do
    n ← or_internal (ApiTokens.count_active_by_user u.id d.now)
    check (not (leb c.max_per_user n)) token_limit
    selector ← or_internal (lift (random_api_token_part d.selector_bytes))
    validator ← or_internal (lift (random_api_token_part d.validator_bytes))
    let token : ApiToken = record {
      id = d.id;
      user_id = u.id;
      name = trim_space cmd.name;
      selector = selector;
      validator_hash = ext.sha256_hex validator;
      scopes = scopes;
      expires_at = cmd.expires_at;
      last_used_at = none;
      revoked_at = none;
      created_at = d.now;
    }
    _ ← or_internal (ApiTokens.create token)
    done (token, join_api_token selector validator)

  -- `actor` is the principal that delegates, `none` for the account itself.
  unfoldable pub issue : Draws → IssueCommand → Option Principal → M (ApiToken × Str)
  issue d cmd actor = do
    let name = trim_space cmd.name
    check (not (str_eq name (lit "") || ltb 100 (length name)))
        (validation (lit "token name must be between 1 and 100 characters"))
    check (ltb d.now cmd.expires_at && not (ltb (d.now + c.max_lifetime) cmd.expires_at))
        (validation (lit "token expiration is outside the allowed lifetime"))
    scopes ← lift (validate_scopes c.allowed_scopes cmd.scopes)
    row ← or_internal (Users.find_by_id cmd.user_id)
    u ← live_user row
    prove_authority actor u cmd d.verify_now
    store_token u cmd scopes d

  -- `find_actor` is FindByID of the users of the actor's guard.
  unfoldable pub issue_impersonated :
      Draws
      → IssueCommand
      → (find_actor : ℕ → Result (Option User)) → (guard : Str) → (actor : ℕ) → M (ApiToken × Str)
  issue_impersonated d cmd find_actor guard actor = do
    check
        (is_some (policy_of guard c.delegation_actors)
          && (not (str_eq c.delegation_guard (lit "")) && not (actor == 0)))
        forbidden
    row ← or_internal (lift (find_actor actor))
    u ← live_actor row
    issue d cmd (some (record { guard = guard; user_id = u.id; email = u.email; role = u.role }))

  -- The token of a plaintext. The clock is read twice.
  unfoldable pub resolve : (plaintext : Str) → (checked_at now : ℕ) → M ApiToken
  resolve plaintext checked_at now = elim (split_api_token plaintext) [
    | none ↦ fail invalid_api_token
    | some parts ↦ or_internal (ApiTokens.find_by_selector parts.0) >>= (λ row.
        or_invalid row >>= (λ token.
          check (str_eq (ext.sha256_hex parts.1) token.validator_hash && active token checked_at)
            invalid_api_token
          >> (or_internal (ApiTokens.touch_last_used token.id api_token_last_used_interval now)
              >> done (record token { last_used_at = some now }))))
  ]

unfoldable pub list : (user : ℕ) → M (List ApiToken)
list user = or_internal (ApiTokens.list_by_user user)

unfoldable pub revoke : (user token now : ℕ) → M (Unit {0})
revoke user token now = do
  rows ← or_internal (ApiTokens.revoke token user now)
  check (not (rows == 0)) not_found

unfoldable pub revoke_all : (user now : ℕ) → M (Unit {0})
revoke_all user now = or_internal (ApiTokens.revoke_all_by_user user now)

unfoldable pub prune : (now : ℕ) → M (Unit {0})
prune now = or_internal (ApiTokens.delete_prunable api_token_prune_retention now)
