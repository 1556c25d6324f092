-- ===== src/Middleware/Guards.antt =====
-- http/middleware/authenticated.go, http/middleware/api_token.go: who passes. The session of the
-- framework is an input: the id that GuardUserID reads, and the stamp of the password's time.
pub mod Passing
pub mod Expiry
use goravel_authkit.Base.{
  ℕ, Bool, true, false, not, ◌&&◌, ◌||◌, List, [], ◌∷◌, ◌++◌, Option, none, some, ◌==◌,
  if◌then◌else◌, is_empty, length,
}
use goravel_authkit.Text.{Str, lit, str_eq, trim_space, is_space, equal_fold, mem_str}
use goravel_authkit.Errors.{Err, is_invalid_api_token}
use goravel_authkit.Models.{User, ApiToken, is_disabled}
use goravel_authkit.External.{External}
use goravel_authkit.Store.{Db, Outcome, done, fail, M, branch, recovered}
use goravel_authkit.Repositories.Users
use goravel_authkit.Services.ApiTokens

-- helpers.AuthMethodSession and helpers.AuthMethodAPIToken
pub data AuthMethod : Type 0 where
  session api_token : AuthMethod

-- What the middleware injects into the context of the request.
pub record Identity : Type 0 where
  pub user_id : ℕ
  pub method : AuthMethod
  pub token_id : ℕ
  pub scopes : List Str

-- What happens to the session of the guard when a request is refused.
pub data Effect : Type 0 where
  keep_session log_out log_out_and_forget_stamp : Effect

pub data Decision : Type 0 where
  next : Identity → Decision
  abort : Effect → (status : ℕ) → (code : Str) → Decision

abbrev pub unauthorized : Decision
unauthorized = abort keep_session 401 (lit "unauthorized")

abbrev pub of_session : ℕ → Identity
of_session id = record { user_id = id; method = session; token_id = 0; scopes = [] }

-- sessionPasswordTimestampValid; `none` is a key that is absent or no string.
unfoldable pub stamp_valid : (format : ℕ → Str) → Option Str → ℕ → Bool
stamp_valid format none at = false
stamp_valid format (some stored) at = not (str_eq stored (lit "")) && str_eq stored (format at)

-- A request without a session skips the comparison.
abbrev pub stamp_passes : (format : ℕ → Str) → Option (Option Str) → ℕ → Bool
stamp_passes format none at = true
stamp_passes format (some stamp) at = stamp_valid format stamp at

unfoldable pub admit : (format : ℕ → Str) → Option (Option Str) → Option User → Decision
unfolding stamp_valid
admit format stamp none = unauthorized
admit format stamp (some u) =
    if is_disabled u
    then abort log_out 401 (lit "account_disabled")
    else if stamp_passes format stamp u.password_changed_at
    then next (of_session u.id)
    else abort log_out_and_forget_stamp 401 (lit "session_expired")

unfoldable pub authenticated :
    (format : ℕ → Str) → (id : ℕ) → (stamp : Option (Option Str)) → M Decision
authenticated format id stamp = branch (id == 0) (done unauthorized) (λ db.
    recovered (Users.find_by_id id db) (λ row. done (admit format stamp row))
      (λ e. done unauthorized))

-- RequireRole: `true` goes on.
unfoldable pub role_admitted : List Str → Option User → Decision → Decision
role_admitted allowed none passed = unauthorized
role_admitted allowed (some u) passed =
    if mem_str allowed u.role then passed else abort keep_session 403 (lit "forbidden")

unfoldable pub require_role : (allowed : List Str) → Identity → M Decision
require_role allowed who = branch (is_empty allowed) (done (next who)) (
    branch (who.user_id == 0) (done unauthorized) (λ db.
      recovered (Users.find_by_id who.user_id db)
        (λ row. done (role_admitted allowed row (next who))) (λ e. done unauthorized)))

-- strings.Fields: the words between white space. `word` is the one that is being read.
unfoldable pub fields_from : (word : Str) → Str → List Str
unfolding is_space
fields_from word [] = if is_empty word then [] else word ∷ []
fields_from word (c ∷ s) =
    let rest = fields_from [] s in
    let longer = fields_from (word ++ c ∷ []) s in
    if is_space c then (if is_empty word then rest else word ∷ rest) else longer

module _ (ext : External) where
  abbrev bearer_word : List Str → Option Str
  bearer_word (scheme ∷ word ∷ []) =
      if equal_fold ext.fold_table scheme (lit "Bearer") && not (str_eq word (lit ""))
      then some word
      else none
  bearer_word _ = none

  unfoldable pub bearer_token : (header : Str) → Option Str
  unfolding fields_from
  bearer_token header = bearer_word (fields_from [] header)

  abbrev pub invalid_token : Decision
  invalid_token = abort keep_session 401 (lit "invalid_token")

  abbrev pub unavailable : Decision
  unavailable = abort keep_session 503 (lit "authentication_unavailable")

  -- The loop over the required scopes.
  unfoldable pub has_scopes : (granted required : List Str) → Bool
  has_scopes granted [] = true
  has_scopes granted (r ∷ required) = mem_str granted r && has_scopes granted required

  unfoldable pub admit_token : (required : List Str) → ApiToken → Option User → Decision
  admit_token required token none = invalid_token
  admit_token required token (some u) =
      if is_disabled u
      then invalid_token
      else if has_scopes token.scopes required
      then next (record {
        user_id = u.id;
        method = api_token;
        token_id = token.id;
        scopes = token.scopes;
      })
      else abort keep_session 403 (lit "insufficient_scope")

  abbrev pub refuse_token : Err → Decision
  refuse_token e = if is_invalid_api_token e then invalid_token else unavailable

  abbrev present : Option Str → (Str → M Decision) → M Decision
  present none k = done invalid_token
  present (some plaintext) k = k plaintext

  -- `enabled` says whether the guard has API tokens.
  unfoldable pub bearer_authenticated :
      ApiTokens.Config
      → (enabled : Bool) → (required : List Str) → (header : Str) → (checked_at now : ℕ)
      → M Decision
  bearer_authenticated c enabled required header checked_at now =
      branch enabled
        (present (bearer_token header) λ plaintext db.
          recovered (ApiTokens.resolve ext c plaintext checked_at now db)
            (λ token db.
              recovered (Users.find_by_id token.user_id db)
                (λ row. done (admit_token required token row)) (λ e. done unavailable))
            (λ e. done (refuse_token e)))
        (done invalid_token)

  -- A header that is not blank decides for the bearer token.
  unfoldable pub authenticate_any :
      ApiTokens.Config
      → (enabled : Bool) → (required : List Str) → (header : Str) → (checked_at now : ℕ)
      → (format : ℕ → Str) → (id : ℕ) → (stamp : Option (Option Str)) → M Decision
  authenticate_any c enabled required header checked_at now format id stamp =
      branch (not (str_eq (trim_space header) (lit "")))
        (bearer_authenticated c enabled required header checked_at now)
        (authenticated format id stamp)
