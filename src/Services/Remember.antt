-- ===== src/Services/Remember.antt =====
-- services/remember.go: persistent logins by selector and validator. The cookie is
-- "selector:validator", the table keeps the validator's hash.
pub mod Tokens
pub mod Rotation
pub mod Theft
pub mod RoundTrip
pub mod Accounts
use goravel_authkit.Base.{
  ℕ, ◌+◌, ◌*◌, Bool, true, false, not, ◌&&◌, List, [], ◌∷◌, ◌++◌, Option, none, some, ltb, leb,
  ◌==◌, if◌then◌else◌,
}
use goravel_authkit.Text.{Str, lit, str_eq, cut}
use goravel_authkit.Text.Base64.{encode}
use goravel_authkit.Errors.{Err, invalid_remember_token, driver, Result, ok, err}
use goravel_authkit.Models.{RememberToken}
use goravel_authkit.External.{External}
use goravel_authkit.Store.{
  Db, Outcome, done, fail, M, ◌>>=◌, ◌>>◌, check, lift, or_internal, ignore, branch,
}
use goravel_authkit.Repositories.Remember

-- Durations are in nanoseconds.
abbrev pub second : ℕ
second = 1_000_000_000

abbrev pub default_remember_lifetime : ℕ
default_remember_lifetime = 30 * (24 * 3600) * second

abbrev pub remember_grace_window : ℕ
remember_grace_window = 60 * second

unfoldable pub new_remember : ℕ → ℕ
new_remember ttl = if ltb 0 ttl then ttl else default_remember_lifetime

unfoldable pub join_token : Str → Str → Str
join_token selector validator = selector ++ b':' ∷ validator

abbrev both_set : Option (Str × Str) → Option (Str × Str)
both_set none = none
both_set (some (selector, validator)) =
    if not (str_eq selector (lit "")) && not (str_eq validator (lit ""))
    then some (selector, validator)
    else none

unfoldable pub split_token : Str → Option (Str × Str)
split_token value = both_set (cut value b':')

-- `bytes` is what rand.Read gives, `none` its failure.
unfoldable pub random_token : Option (List ℕ) → Result Str
random_token none = err (driver (lit "rand"))
random_token (some bytes) = ok (encode bytes)

abbrev pub or_invalid : Option RememberToken → M RememberToken
or_invalid none = fail invalid_remember_token
or_invalid (some t) = done t

-- previous != "" && rotatedAt != nil && now - rotatedAt <= grace && the hash is the previous one
unfoldable pub in_grace : RememberToken → Str → ℕ → Bool
in_grace t presented now =
    not (str_eq t.previous_validator_hash (lit ""))
    && (elim t.rotated_at [ none ↦ false | some at ↦ leb now (at + remember_grace_window) ]
        && str_eq presented t.previous_validator_hash)

module _ (ext : External) (ttl : ℕ) where
  unfoldable pub issue :
      (id now : ℕ) → (selector_bytes validator_bytes : Option (List ℕ)) → (user : ℕ) → M Str
  issue id now selector_bytes validator_bytes user = do
    selector ← or_internal (lift (random_token selector_bytes))
    validator ← or_internal (lift (random_token validator_bytes))
    _ ← or_internal (
        Remember.create (record {
          id = id;
          user_id = user;
          selector = selector;
          validator_hash = ext.sha256_hex validator;
          previous_validator_hash = lit "";
          rotated_at = none;
          expires_at = now + ttl;
        }))
    done (join_token selector validator)

  -- The current validator: swap it, unless another request did so first.
  unfoldable pub rotate : RememberToken → (now : ℕ) → Option (List ℕ) → M (ℕ × Str)
  rotate t now bytes = do
    validator ← or_internal (lift (random_token bytes))
    rows ← or_internal (
        Remember.rotate_validator t.id t.validator_hash (ext.sha256_hex validator) t.validator_hash
          now (now + ttl))
    branch (rows == 0) (done (t.user_id, lit ""))
        (done (t.user_id, join_token t.selector validator))

  -- What `Resolve` does with the row of the selector.
  unfoldable pub resolve_row :
      RememberToken → (presented : Str) → (now : ℕ) → Option (List ℕ) → M (ℕ × Str)
  resolve_row t presented now bytes =
      branch (ltb t.expires_at now) (ignore (Remember.delete t.id) >> fail invalid_remember_token) (
        branch (str_eq presented t.validator_hash) (rotate t now bytes) (
          branch (in_grace t presented now) (done (t.user_id, lit ""))
            (ignore (Remember.delete_by_user t.user_id) >> fail invalid_remember_token)))

  abbrev pub resolve_parts : Option (Str × Str) → (now : ℕ) → Option (List ℕ) → M (ℕ × Str)
  resolve_parts none now bytes = fail invalid_remember_token
  resolve_parts (some (selector, validator)) now bytes = do
    row ← or_internal (Remember.find_by_selector selector)
    t ← or_invalid row
    resolve_row t (ext.sha256_hex validator) now bytes

  -- The user's id and the cookie to set, "" for none.
  unfoldable pub resolve : (cookie : Str) → (now : ℕ) → Option (List ℕ) → M (ℕ × Str)
  resolve cookie now bytes = resolve_parts (split_token cookie) now bytes

abbrev delete_row : Option RememberToken → M (Unit {0})
delete_row none = done tt
delete_row (some t) = or_internal (Remember.delete t.id)

abbrev revoke_parts : Option (Str × Str) → M (Unit {0})
revoke_parts none = done tt
revoke_parts (some (selector, validator)) = do
  row ← or_internal (Remember.find_by_selector selector)
  delete_row row

unfoldable pub revoke : (cookie : Str) → M (Unit {0})
revoke cookie = revoke_parts (split_token cookie)

unfoldable pub revoke_all_for_user : ℕ → M (Unit {0})
revoke_all_for_user user = or_internal (Remember.delete_by_user user)

unfoldable pub prune_expired : (now : ℕ) → M (Unit {0})
prune_expired now = or_internal (Remember.delete_expired now)
