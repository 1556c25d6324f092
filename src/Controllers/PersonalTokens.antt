-- ===== src/Controllers/PersonalTokens.antt =====
-- http/controllers/api_tokens.go. A body that cannot be bound is `none`; `parse_time` is time.Parse
-- of RFC 3339, a parameter, and `find_actor` is FindByID of the accounts of a guard.
use goravel_authkit.Base.{ℕ, Bool, List, [], ◌∷◌, map, Option, none, some}
use goravel_authkit.Text.{Str, lit}
use goravel_authkit.Errors.{
  Err, Result, ok, err, forbidden, wrong_password, invalid_code, validation, token_limit, not_found,
  unauthorized,
}
use goravel_authkit.Models.{User, ApiToken}
use goravel_authkit.External.{External}
use goravel_authkit.Http.{
  Platform, Request, ImpersonatorMarker, ran, W, ◌>>=◌, ◌>>◌, give, attempt, request_user,
}
use goravel_authkit.Helpers.{impersonator_of}
use goravel_authkit.Responses.{
  Answer, json, error, message, api_tokens, issued_api_token, internal_error, invalid_body,
  authentication_required, new_api_token_response, CreateApiTokenRequest,
}
use goravel_authkit.Services.ApiTokens
use goravel_authkit.Middleware.RateLimit.{RateLimitResult}
use goravel_authkit.Controllers.{
  cause, validation_message, Stamp, entry, write_audit, enforce_rate_limit, unless_answered,
  parse_uuid_param,
}

-- `guard` is "" unless tokens may be created while impersonating.
pub record ApiTokensController : Type 0 where
  pub tokens : ApiTokens.Config
  pub audit : Bool
  pub guard : Str

abbrev invalid_request : (text : Str) → Answer
invalid_request text = json 400 (error (lit "validation_error") text)

abbrev service_answer : Err → Answer
service_answer forbidden =
    json 403 (error (lit "forbidden") (lit "Impersonated token creation is not authorized"))
service_answer wrong_password =
    json 400 (error (lit "wrong_password") (lit "Current password is incorrect"))
service_answer invalid_code =
    json 400 (error (lit "invalid_code") (lit "Invalid two-factor authentication code"))
service_answer (validation detail) = invalid_request (validation_message detail)
service_answer token_limit =
    json 409 (error (lit "token_limit") (lit "Maximum number of active API tokens reached"))
service_answer not_found = json 404 (error (lit "not_found") (lit "API token not found"))
service_answer unauthorized = authentication_required
service_answer _ = internal_error

-- mapError
unfoldable pub map_token_error : Err → Answer
unfolding cause validation_message
map_token_error e = service_answer (cause e)

module _ {S : Type 0} (ext : External) (p : Platform S) (tc : ApiTokensController) where
  -- writeAudit
  unfoldable pub write_token_audit :
      Request → Stamp → (actor : ℕ) → (action : Str) → (resource : Str) → W S (Unit {0})
  unfolding write_audit
  write_token_audit req s actor action resource =
      write_audit tc.audit s
        (record (entry (some actor) action (some resource) req) { resource_type = lit "api_token" })

  abbrev list_answer : Result (List ApiToken) → Answer
  list_answer (err e) = internal_error
  list_answer (ok tokens) = json 200 (api_tokens (map (new_api_token_response p) tokens))

  unfoldable pub index_tokens : W S Answer
  index_tokens = do user ← request_user; r ← attempt (ApiTokens.list user); give (list_answer r)

  -- The audit entry of a token that an actor creates for another account.
  unfoldable pub write_delegated :
      Request → Stamp → (guard : Str) → (user token : ℕ) → Result (Option User) → W S (Unit {0})
  unfolding write_audit
  write_delegated req s guard user token (err e) = give tt
  write_delegated req s guard user token (ok none) = give tt
  write_delegated req s guard user token (ok (some actor)) =
      write_audit tc.audit s
        (record (entry (some actor.id) (lit "auth.api_token_created") (some (p.uuid_string token))
          req) {
            actor_email = actor.email;
            resource_type = lit "api_token";
            metadata =
                (lit "target_user_id", p.uuid_string user)
                ∷ (lit "target_guard", tc.guard)
                ∷ (lit "actor_guard", guard)
                ∷ [];
          })

  abbrev issued : W S (Unit {0}) → Result (ApiToken × Str) → W S Answer
  issued audit (err e) = give (map_token_error e)
  issued audit (ok (token, plaintext)) =
      audit >> give (json 201 (issued_api_token (new_api_token_response p token) plaintext))

  abbrev token_of : Result (ApiToken × Str) → ℕ
  token_of (err e) = 0
  token_of (ok (token, plaintext)) = token.id

  abbrev issue_as :
      (find_actor : (guard : Str) → ℕ → Result (Option User))
      → Request
      → Stamp
      → ApiTokens.Draws
      → ApiTokens.IssueCommand
      → Option ImpersonatorMarker
      → W S Answer
  issue_as find_actor req s d cmd none = do
    r ← attempt (ApiTokens.issue ext tc.tokens d cmd none)
    issued
        (write_token_audit req s cmd.user_id (lit "auth.api_token_created")
          (p.uuid_string (token_of r)))
        r
  issue_as find_actor req s d cmd (some m) = do
    r ←
        attempt
          (ApiTokens.issue_impersonated ext tc.tokens d cmd (find_actor m.guard) m.guard m.user_id)
    issued (write_delegated req s m.guard cmd.user_id (token_of r) (find_actor m.guard m.user_id)) r

  abbrev command : CreateApiTokenRequest → (user expires_at : ℕ) → ApiTokens.IssueCommand
  command body user expires_at = record {
    user_id = user;
    name = body.name;
    expires_at = expires_at;
    scopes = body.scopes;
    password = body.password;
    two_factor_code = body.two_factor_code;
  }

  abbrev read_impersonator : W S (Option ImpersonatorMarker)
  read_impersonator c = ran (impersonator_of p tc.guard c) c

  abbrev store_until :
      (find_actor : (guard : Str) → ℕ → Result (Option User))
      → CreateApiTokenRequest
      → Option RateLimitResult
      → Request
      → Stamp
      → ApiTokens.Draws
      → Option ℕ
      → W S Answer
  store_until find_actor body limit req s d none =
      give (invalid_request (lit "expiresAt must be an RFC3339 timestamp"))
  store_until find_actor body limit req s d (some expires_at) = do
    user ← request_user
    answered ← enforce_rate_limit limit
    unless_answered
        (read_impersonator >>= λ m. issue_as find_actor req s d (command body user expires_at) m)
        answered

  unfoldable pub store_api_token :
      (parse_time : Str → Option ℕ)
      → (find_actor : (guard : Str) → ℕ → Result (Option User)) → Option CreateApiTokenRequest
      → Option RateLimitResult
      → Request
      → Stamp
      → ApiTokens.Draws
      → W S Answer
  unfolding write_token_audit write_delegated map_token_error
  store_api_token parse_time find_actor none limit req s d = give invalid_body
  store_api_token parse_time find_actor (some body) limit req s d =
      store_until find_actor body limit req s d (parse_time body.expires_at)

  abbrev revoked : Request → Stamp → (user id : ℕ) → Result (Unit {0}) → W S Answer
  revoked req s user id (err e) = give (map_token_error e)
  revoked req s user id (ok done) = do
    write_token_audit req s user (lit "auth.api_token_revoked") (p.uuid_string id)
    give (json 200 (message (lit "API token revoked")))

  unfoldable pub destroy_api_token : (id : Str) → (now : ℕ) → Request → Stamp → W S Answer
  unfolding write_token_audit map_token_error parse_uuid_param
  destroy_api_token id now req s = parse_uuid_param p id λ n.
      request_user >>= λ user. attempt (ApiTokens.revoke user n now) >>= λ r. revoked req s user n r

  abbrev all_revoked : Request → Stamp → (user : ℕ) → Result (Unit {0}) → W S Answer
  all_revoked req s user (err e) = give internal_error
  all_revoked req s user (ok done) = do
    write_token_audit req s user (lit "auth.api_tokens_revoked") (p.uuid_string user)
    give (json 200 (message (lit "API tokens revoked")))

  unfoldable pub destroy_all_tokens : (now : ℕ) → Request → Stamp → W S Answer
  unfolding write_token_audit
  destroy_all_tokens now req s = do
    user ← request_user
    r ← attempt (ApiTokens.revoke_all user now)
    all_revoked req s user r
