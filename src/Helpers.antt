-- ===== src/Helpers.antt =====
-- helpers/: the keys of the session, the marker of an impersonation, and the token of a tracked
-- session.
pub mod Keys
pub mod Signed
pub mod Marked
use goravel_authkit.Base.{
  ℕ, ◌+◌, ◌-◌, ◌/◌, ◌%◌, Bool, true, false, List, [], ◌∷◌, ◌++◌, Option, none, some, ltb, is_some,
  if◌then◌else◌,
}
use goravel_authkit.Text.{Str, lit, str_eq, mem_str}
use goravel_authkit.Http.{
  Context, ImpersonatorMarker, Platform, Ran, ran, W, session_value, session_user, with_session,
}
use goravel_authkit.Middleware.Guards.{Identity, AuthMethod, session, api_token}

-- The keys that authkit owns, without the name of the guard.
pub data Entry : Type 0 where
  password_changed_at two_factor_user_id remember_intent session_token impersonator : Entry

unfoldable pub suffix : Entry → Str
suffix password_changed_at = lit "_password_changed_at"
suffix two_factor_user_id = lit "_two_factor_user_id"
suffix remember_intent = lit "_remember_intent"
suffix session_token = lit "_session_token"
suffix impersonator = lit "_impersonator"

unfoldable pub key : Entry → (guard : Str) → Str
unfolding suffix
key e guard = lit "authkit_" ++ (guard ++ suffix e)

abbrev pub password_changed_at_key : Str → Str
password_changed_at_key = key password_changed_at

abbrev pub two_factor_user_id_key : Str → Str
two_factor_user_id_key = key two_factor_user_id

abbrev pub remember_intent_key : Str → Str
remember_intent_key = key remember_intent

abbrev pub session_tracking_token_key : Str → Str
session_tracking_token_key = key session_token

abbrev pub impersonator_key : Str → Str
impersonator_key = key impersonator

abbrev hex_digit : ℕ → ℕ
hex_digit n = if ltb n 10 then b'0' + n else b'a' + (n - 10)

unfoldable pub hex : List ℕ → Str
hex [] = []
hex (b ∷ bytes) = hex_digit (b / 16) ∷ hex_digit (b % 16) ∷ hex bytes

-- `bytes` is what rand.Read gives, `none` its failure.
unfoldable pub new_session_token : Option (List ℕ) → Str
unfolding hex
new_session_token none = lit ""
new_session_token (some bytes) = hex bytes

abbrev pub or_empty : Option Str → Str
or_empty none = lit ""
or_empty (some s) = s

abbrev pub or_nil : Option ℕ → ℕ
or_nil none = 0
or_nil (some id) = id

-- TokenCan
unfoldable pub token_can : Identity → (scope : Str) → Bool
token_can who scope = elim who.method [ session ↦ false | api_token ↦ mem_str who.scopes scope ]

module _ {S : Type 0} (p : Platform S) where
  unfoldable pub session_tracking_token : (guard : Str) → Context S → Str
  session_tracking_token guard c = or_empty (session_value p (session_tracking_token_key guard) c)

  -- uuid.Parse, uuid.Nil where it fails.
  abbrev parsed : Option Str → ℕ
  parsed none = 0
  parsed (some raw) = if str_eq raw (lit "") then 0 else or_nil (p.uuid_parse raw)

  -- GuardUserID
  unfoldable pub guard_user_id : (guard : Str) → Context S → ℕ
  guard_user_id guard c = parsed (session_user p guard c)

  abbrev pub set_marker : Str → Option Str → W S (Unit {0})
  set_marker k none = λ c. ran tt c
  set_marker k (some json) = with_session (p.put k json)

  unfoldable pub set_impersonator : (guard : Str) → ImpersonatorMarker → W S (Unit {0})
  set_impersonator guard m = set_marker (impersonator_key guard) (p.marshal_marker m)

  abbrev pub read_marker : Option Str → Option ImpersonatorMarker
  read_marker none = none
  read_marker (some raw) = if str_eq raw (lit "") then none else p.unmarshal_marker raw

  -- Impersonator: `none` where the session is not an impersonated one.
  unfoldable pub impersonator_of : (guard : Str) → Context S → Option ImpersonatorMarker
  impersonator_of guard c = read_marker (session_value p (impersonator_key guard) c)

  unfoldable pub clear_impersonator : (guard : Str) → W S (Unit {0})
  clear_impersonator guard = with_session (p.forget (impersonator_key guard))

  unfoldable pub is_impersonating : (guard : Str) → Context S → Bool
  unfolding impersonator_of
  is_impersonating guard c = is_some (impersonator_of guard c)
