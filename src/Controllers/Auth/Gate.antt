-- ===== src/Controllers/Auth/Gate.antt =====
-- http/controllers/auth.go: proofs about who gets a session by Login.
use mathlib.Core.Path.{subst}
use goravel_authkit.Base.{
  ◌≡◌, refl, ap, ◌∙◌, Bool, true, false, ◌&&◌, Option, none, some, ◌⊎◌, inl, inr, if◌then◌else◌,
}
use goravel_authkit.Text.{Str, lit}
use goravel_authkit.Errors.{Result, ok, err}
use goravel_authkit.Models.{User, two_factor_enabled, is_disabled}
use goravel_authkit.External.{External}
use goravel_authkit.Store.{Db, Outcome, done, fail}
use goravel_authkit.Store.Laws.{Ensures, Reads}
use goravel_authkit.Http.{Context, Platform, Request, ◌>>=◌, attempt, session_user, signed_in}
use goravel_authkit.Http.Laws.{IsLawful}
use goravel_authkit.Http.Rules.{
  Gives, Keeps, follow-Gives, follow-Keeps, choose-Gives, give-Keeps, attempt-Gives,
  with_session-Keeps, regenerate-Keeps, gives_now, Gives-imp, Answered,
}
use goravel_authkit.Helpers.{
  two_factor_user_id, remember_intent, two_factor_user_id_key, remember_intent_key,
}
use goravel_authkit.Helpers.Signed.{id-put_key}
use goravel_authkit.Responses.{Answer, LoginRequest}
use goravel_authkit.Repositories.Users.{select_email}
use goravel_authkit.Services.Validation.{normalize_email, validate_email}
use goravel_authkit.Services.Auth
use goravel_authkit.Services.Auth.{check_hash}
use goravel_authkit.Services.Auth.Passwords.{authenticate-genuine}
use goravel_authkit.Middleware.RateLimit.{RateLimitResult}
use goravel_authkit.Controllers.{Draws, enforce_rate_limit, unless_answered}
use goravel_authkit.Controllers.Establish.{write_audit-Keeps}
use goravel_authkit.Controllers.Completed.{SignedAs, complete_login-Signed}
use goravel_authkit.Controllers.Auth.{
  AuthController, login, finish_login, defer_login, write_audit_attempt,
}

module _ {S : Type 0} (c : Context S) where
  -- The limit of attempts leaves the session and the database alone.
  pub enforce_rate_limit-Keeps :
      (limit : Option RateLimitResult)
      → Gives (λ _ c'. (c'.session ≡ c.session) × (c'.db ≡ c.db)) (enforce_rate_limit limit c)
  unfolding enforce_rate_limit
  enforce_rate_limit-Keeps none = gives_now (refl, refl)
  enforce_rate_limit-Keeps (some r) =
      choose-Gives r.allowed _ _ c (λ _. gives_now (refl, refl)) (λ _. gives_now (refl, refl))

module _ {S : Type 0} (ext : External) (p : Platform S) (laws : IsLawful p)
    (ac : AuthController) where
  -- The user of the guard is `x`.
  abbrev IsUser : Option Str → Option S → Type 0
  IsUser x o = signed_in p ac.sign_in.guard o ≡ x

  defer_login-Keeps :
      (x : Option Str) (remember : Bool) (u : User)
      → Keeps (IsUser x) (defer_login ext p ac remember u)
  unfolding defer_login
  defer_login-Keeps x remember u =
      follow-Keeps (IsUser x) _ _
        (regenerate-Keeps (IsUser x) p (λ s t r h. laws.id-regenerate ac.sign_in.guard s t r ∙ h))
        λ _.
          follow-Keeps (IsUser x) _ _
            (with_session-Keeps (IsUser x) _ (λ s h. pending remember s h))
            λ _. give-Keeps (IsUser x) _
    where
      pending :
          (remember : Bool) (s : S)
          → p.guard_id ac.sign_in.guard s ≡ x
          → p.guard_id ac.sign_in.guard (
              if remember
              then p.put
                  (remember_intent_key ac.sign_in.guard)
                  (lit "1")
                  (p.put (two_factor_user_id_key ac.sign_in.guard) (p.uuid_string u.id) s)
              else p.put (two_factor_user_id_key ac.sign_in.guard) (p.uuid_string u.id) s)
            ≡ x
      pending true s h =
          id-put_key p laws remember_intent _ _ _ _
          ∙ (id-put_key p laws two_factor_user_id _ _ _ s ∙ h)
      pending false s h = id-put_key p laws two_factor_user_id _ _ _ s ∙ h

  -- Whom Login signs in: the account of the address, with this password, not locked, and without
  -- a second factor that is still owed.
  abbrev pub Proven : LoginRequest → Db → Context S → Type 0
  Proven body db c =
      (u : User) × (select_email (normalize_email ext body.email) db.tables.users ≡ some u)
      × (check_hash ext body.password u.password_hash ≡ true)
      × (is_disabled u ≡ false)
      × ((ac.two_factor && two_factor_enabled u) ≡ false)
      × SignedAs p laws ac.sign_in.guard u c

  abbrev pub Settles : LoginRequest → Db → Option Str → Answer → Context S → Type 0
  Settles body db x a c = (session_user p ac.sign_in.guard c ≡ x) ⊎ Proven body db c

  finish_login-Proven :
      (body : LoginRequest) (req : Request) (d : Draws) (db : Db) (x : Option Str) (u : User)
      (c : Context S)
      → session_user p ac.sign_in.guard c ≡ x
      → select_email (normalize_email ext body.email) db.tables.users ≡ some u
      → check_hash ext body.password u.password_hash ≡ true
      → Gives (Settles body db x) (finish_login ext p ac body req d (ok u) c)
  unfolding finish_login write_audit_attempt
  finish_login-Proven body req d db x u c same found fits =
      choose-Gives (is_disabled u) _ _ c
        (λ _.
          Gives-imp _
            (follow-Keeps (IsUser x) _ _ (write_audit-Keeps (IsUser x) _ _ _)
              (λ _. give-Keeps (IsUser x) _) c same)
            (λ a c' h. inl h))
        λ live.
          choose-Gives (ac.two_factor && two_factor_enabled u) _ _ c
            (λ _. Gives-imp _ (defer_login-Keeps x body.remember u c same) (λ a c' h. inl h))
            λ single.
              Gives-imp _ (complete_login-Signed p laws ext ac.sign_in req d body.remember u c)
                λ a c' h. elim h [
                  | inl signed ↦ inr (u, found, fits, live, single, signed.1)
                  | inr refused ↦ inl (ap (signed_in p ac.sign_in.guard) refused.1 ∙ same)
                ]

  found-Proven :
      (body : LoginRequest) (req : Request) (d : Draws) (db : Db) (x : Option Str) (r : Result User)
      (c : Context S)
      → session_user p ac.sign_in.guard c ≡ x
      → Answered
          (λ u _.
            (select_email (normalize_email ext body.email) db.tables.users ≡ some u)
            × (check_hash ext body.password u.password_hash ≡ true))
          (λ _. Unit {0})
          r
          c.db.tables
      → Gives (Settles body db x) (finish_login ext p ac body req d r c)
  found-Proven body req d db x (ok u) c same h =
      finish_login-Proven body req d db x u c same h.0 h.1
  found-Proven body req d db x (err e) c same h =
      unfold finish_login write_audit_attempt in
      Gives-imp _
        (follow-Keeps (IsUser x) _ _ (write_audit-Keeps (IsUser x) _ _ _)
          (λ _. give-Keeps (IsUser x) _) c same)
        (λ a c' h. inl h)

  genuine-Ensures :
      (email password : Str) (db : Db)
      → Ensures
          (λ u _.
            (select_email (normalize_email ext email) db.tables.users ≡ some u)
            × (check_hash ext password u.password_hash ≡ true))
          (λ _. Unit {0})
          (Auth.authenticate ext email password db)
  genuine-Ensures email password db =
      reads_post (Auth.authenticate ext email password db)
        (authenticate-genuine ext email password db)
    where
      reads_post :
          (o : Outcome User)
          → Reads
              (λ u.
                (select_email (normalize_email ext email) db.tables.users ≡ some u)
                × (check_hash ext password u.password_hash ≡ true)
                × (validate_email ext (normalize_email ext email) ≡ ok tt))
              db.tables
              o
          → Ensures
              (λ u _.
                (select_email (normalize_email ext email) db.tables.users ≡ some u)
                × (check_hash ext password u.password_hash ≡ true))
              (λ _. Unit {0})
              o
      reads_post (done u d) r = record { holds = (r.reads.1.0, r.reads.1.1) }
      reads_post (fail e d) r = record { holds = tt }

  -- After Login the user of the session is the one that it had before, or the account of the
  -- given address, with the given password, that is not disabled and has no second factor where
  -- second factors are enabled.
  pub login-Proven :
      (body : LoginRequest) (limit : Option RateLimitResult) (req : Request) (d : Draws)
      (c : Context S)
      → Gives
          (Settles body c.db (session_user p ac.sign_in.guard c))
          (login ext p ac (some body) limit req d c)
  unfolding login
  login-Proven body limit req d c =
      follow-Gives _ (enforce_rate_limit-Keeps c limit) λ answered c1 kept. answer answered c1 kept
    where
      answer :
          (answered : Option Answer) (c1 : Context S)
          → (c1.session ≡ c.session) × (c1.db ≡ c.db)
          → Gives (Settles body c.db (session_user p ac.sign_in.guard c)) (
              unless_answered
                (attempt (Auth.authenticate ext body.email body.password) >>= λ found.
                  finish_login ext p ac body req d found)
                answered
                c1)
      answer (some a) c1 kept = gives_now (inl (ap (signed_in p ac.sign_in.guard) kept.0))
      answer none c1 kept =
          follow-Gives _
            (attempt-Gives (Auth.authenticate ext body.email body.password) c1 (
              subst
                (λ (db : Db).
                  Ensures
                    (λ u _.
                      (select_email (normalize_email ext body.email) db.tables.users ≡ some u)
                      × (check_hash ext body.password u.password_hash ≡ true))
                    (λ _. Unit {0}) (Auth.authenticate ext body.email body.password c1.db))
                kept.1 (genuine-Ensures body.email body.password c1.db)))
            λ r c2 h.
              found-Proven body req d c.db (session_user p ac.sign_in.guard c) r c2
                (ap (signed_in p ac.sign_in.guard) (h.0 ∙ kept.0)) h.1
