-- ===== src/Http.antt =====
-- What a handler of a request works on: the session, the identity, the database, and what the
-- response has so far. The session and the guards of the framework are parameters.
pub mod Laws
pub mod Rules
use goravel_authkit.Base.{ℕ, Bool, true, false, Option, none, some}
use goravel_authkit.Text.{Str, has_prefix, lit}
use goravel_authkit.Errors.{Err, Result, ok, err}
use goravel_authkit.Store.{Db, Outcome, done, fail, M}

-- helpers.ImpersonatorMarker
pub record ImpersonatorMarker : Type 0 where
  pub guard : Str
  pub user_id : ℕ
  pub email : Str
  pub same_guard : Bool

-- The framework, uuid, time and JSON. `S` is a session: `get` has the strings among its values,
-- `guard_id` is ID of a guard, `none` for an error or "", and `guard_login` and `regenerate` are
-- `none` where they fail; a logout does not fail.
pub record Platform (S : Type 0) : Type 0 where
  pub get : (key : Str) → S → Option Str
  pub put : (key value : Str) → S → S
  pub forget : (key : Str) → S → S
  pub guard_id : (guard : Str) → S → Option Str
  pub guard_login : (guard id : Str) → S → Option S
  pub guard_logout : (guard : Str) → S → S
  pub regenerate : S → Option S
  pub uuid_string : ℕ → Str
  pub uuid_parse : Str → Option ℕ
  -- FormatPasswordTimestamp, and the RFC 3339 form of the responses.
  pub format_stamp : ℕ → Str
  pub format_time : ℕ → Str
  pub marshal_marker : ImpersonatorMarker → Option Str
  pub unmarshal_marker : Str → Option ImpersonatorMarker

-- What the response does to the remember cookie; a later write wins.
pub data CookieWrite : Type 0 where
  untouched cleared : CookieWrite
  set_to : (value : Str) → (ttl : ℕ) → CookieWrite

pub record Context (S : Type 0) : Type 0 where
  pub session : Option S
  pub db : Db
  -- CtxAuthUserID, 0 where no middleware has set it.
  pub auth_user_id : ℕ
  pub remember_cookie : CookieWrite
  -- Is the cookie of the session emitted again?
  pub session_cookie : Bool
  -- The header Retry-After, in seconds.
  pub retry_after : Option ℕ

-- What a handler reads of the request beside its body and its session.
pub record Request : Type 0 where
  pub ip : Str
  pub user_agent : Str
  pub remember_cookie : Str

pub data Ran {ℓ} (S : Type 0) (A : Type ℓ) : Type ℓ where
  ran : A → Context S → Ran S A

-- A handler, or a part of one. It deals with errors itself.
abbrev pub W {ℓ} : Type 0 → Type ℓ → Type ℓ
W S A = Context S → Ran S A

unfoldable pub follow {ℓ κ} :
    {S : Type 0} {A : Type ℓ} {B : Type κ} → Ran S A → (A → W S B) → Ran S B
follow (ran a c) f = f a c

infixl 5 ◌>>=◌ ◌>>◌
abbrev pub ◌>>=◌ {ℓ κ} : {S : Type 0} {A : Type ℓ} {B : Type κ} → W S A → (A → W S B) → W S B
◌>>=◌ m f c = follow (m c) f

abbrev pub ◌>>◌ {ℓ} : {S : Type 0} {B : Type ℓ} → W S (Unit {0}) → W S B → W S B
m >> k = m >>= λ _. k

module _ {S : Type 0} where
  abbrev pub give {ℓ} : {A : Type ℓ} → A → W S A
  give a c = ran a c

  unfoldable pub choose {ℓ} : {A : Type ℓ} → Bool → W S A → W S A → W S A
  choose true x y = x
  choose false x y = y

  abbrev settled {ℓ} : {A : Type ℓ} → Context S → Outcome A → Ran S (Result A)
  settled c (done a db) = ran (ok a) (record c { db = db })
  settled c (fail e db) = ran (err e) (record c { db = db })

  -- The call of a service, with its error as a value.
  unfoldable pub attempt {ℓ} : {A : Type ℓ} → M A → W S (Result A)
  attempt m c = settled c (m c.db)

  abbrev pub on_session : (S → S) → Option S → Option S
  on_session f none = none
  on_session f (some s) = some (f s)

  -- `if sess != nil { ... }`
  unfoldable pub with_session : (S → S) → W S (Unit {0})
  with_session f c = ran tt (record c { session = on_session f c.session })

  unfoldable pub clear_remember_cookie : W S (Unit {0})
  clear_remember_cookie c = ran tt (record c { remember_cookie = cleared })

  unfoldable pub set_remember_cookie : (value : Str) → (ttl : ℕ) → W S (Unit {0})
  set_remember_cookie value ttl c = ran tt (record c { remember_cookie = set_to value ttl })

  abbrev pub request_user : W S ℕ
  request_user c = ran c.auth_user_id c

  module _ (p : Platform S) where
    abbrev pub stored : (key : Str) → Option S → Option Str
    stored key none = none
    stored key (some s) = p.get key s

    -- sess.Get(key).(string)
    abbrev pub session_value : (key : Str) → Context S → Option Str
    session_value key c = stored key c.session

    abbrev pub signed_in : (guard : Str) → Option S → Option Str
    signed_in guard none = none
    signed_in guard (some s) = p.guard_id guard s

    -- facades.Auth(ctx).Guard(guard).ID()
    abbrev pub session_user : (guard : Str) → Context S → Option Str
    session_user guard c = signed_in guard c.session

    abbrev pub replaced : Context S → Option S → Ran S Bool
    replaced c none = ran false c
    replaced c (some s) = ran true (record c { session = some s })

    abbrev pub log_in_to : (guard id : Str) → Option S → Option S
    log_in_to guard id none = none
    log_in_to guard id (some s) = p.guard_login guard id s

    -- Login and LoginUsingID; `false` is an error.
    unfoldable pub guard_login : (guard : Str) → (user : ℕ) → W S Bool
    guard_login guard user c = replaced c (log_in_to guard (p.uuid_string user) c.session)

    unfoldable pub guard_logout : (guard : Str) → W S (Unit {0})
    unfolding with_session
    guard_logout guard = with_session (p.guard_logout guard)

    abbrev pub regenerated : Context S → Option S → Ran S (Unit {0})
    regenerated c none = ran tt c
    regenerated c (some s) = ran tt (record c { session = some s; session_cookie = true })

    abbrev pub regenerate_in : Option S → Option S
    regenerate_in none = none
    regenerate_in (some s) = p.regenerate s

    -- helpers.RegenerateAndPersistSession; the callers log its error and go on.
    unfoldable pub regenerate_and_persist_session : W S (Unit {0})
    regenerate_and_persist_session c = regenerated c (regenerate_in c.session)

-- Unfold this name to run a handler.
unfoldable pub web : Unit {0}
unfolding follow choose attempt with_session clear_remember_cookie set_remember_cookie guard_login
    guard_logout regenerate_and_persist_session
web = tt
