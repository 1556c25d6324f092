-- ===== src/Controllers/Auth/Password/Shut.antt =====
-- http/controllers/auth.go: proofs about what ChangePassword leaves open.
use goravel_authkit.Base.{
  ℕ, ◌≡◌, ◌≢◌, refl, true, false, not, ◌&&◌, List, [], ◌∷◌, Option, some, arith, ◌==◌, All, keep,
  Bool-cases, inl, inr,
}
use goravel_authkit.Text.{Str, lit}
use goravel_authkit.Text.Laws.{str_eq_sound}
use goravel_authkit.Models.{RememberToken, AuthSession}
use goravel_authkit.External.{External}
use goravel_authkit.Store.{Tables, done, machine}
use goravel_authkit.Http.{
  Context, Platform, Request, ran, cleared, follow, choose, attempt, with_session, on_session,
  clear_remember_cookie,
}
use goravel_authkit.Http.Rules.{Gives, gives_now}
use goravel_authkit.Helpers.{session_tracking_token, password_changed_at_key}
use goravel_authkit.Responses.{Answer, json, message, ChangePasswordRequest}
use goravel_authkit.Repositories.Remember as RememberRows
use goravel_authkit.Repositories.Remember.Laws.{without-user}
use goravel_authkit.Repositories.Sessions as SessionRows
use goravel_authkit.Repositories.ApiTokens as TokenRows
use goravel_authkit.Repositories.Audit as AuditRows
use goravel_authkit.Services.Audit as Trail
use goravel_authkit.Services.Auth as Accounts
use goravel_authkit.Services.Remember
use goravel_authkit.Services.Sessions
use goravel_authkit.Services.ApiTokens
use goravel_authkit.Services.ApiTokens.Revocation.{AllRevoked, revoke_rows-AllRevoked}
use goravel_authkit.Middleware.RateLimit.{RateLimitResult}
use goravel_authkit.Middleware.Sessions.SignedIn.{at_rest}
use goravel_authkit.Controllers.{write_audit, best_effort, enforce_rate_limit}
use goravel_authkit.Controllers.Auth.{AuthController, write_audit_id}
use goravel_authkit.Controllers.Auth.Password.{
  PasswordDraws, change_password, password_answer, revoke_remember, terminate_others,
  revoke_api_tokens,
}

kept-current :
    (user : ℕ) (token : Str) (rows : List AuthSession)
    → All
        (λ (s : AuthSession). s.user_id ≡ user → s.session_id ≡ token)
        (keep (λ s. not (SessionRows.is_other user token s)) rows)
kept-current user token [] = tt
kept-current user token (s ∷ rows) = elim (Bool-cases (SessionRows.is_other user token s)) [
  | inl t ↦ rw t (kept-current user token rows)
  | inr f ↦ rw f (
    (λ own. str_eq_sound s.session_id token (ground (arith, own, f))),
    kept-current user token rows,
  )
]

module _ {S : Type 0} (ext : External) (p : Platform S) (ac : AuthController) where
  -- The other ways into the account: the remember tokens, the sessions beside this one, and the API
  -- tokens.
  abbrev pub Shut : (user : ℕ) → Context S → Type 0
  Shut user c =
      All (λ (r : RememberToken). r.user_id ≢ user) c.db.tables.remember_tokens
      × All
          (λ (s : AuthSession).
            s.user_id ≡ user → s.session_id ≡ session_tracking_token p ac.sign_in.guard c)
          c.db.tables.sessions
      × AllRevoked user c.db.tables.api_tokens
      × (c.remember_cookie ≡ cleared)

  abbrev pub changed : Answer
  changed = json 200 (message (lit "Password changed"))

  -- The audit entry at the end changes nothing of this.
  audited-Shut :
      (req : Request) (d : PasswordDraws) (user : ℕ) (x : Option S) (t : Tables) (c : Context S)
      → c.session ≡ x
      → Shut user (record c { db = at_rest t })
      → Gives
          (λ a c'. (a ≡ changed) × Shut user c' × (c'.session ≡ x))
          (follow
            (write_audit_id ext p ac req d.audit user
              (lit "auth.password_changed")
              (record c { db = at_rest t }))
            (λ _ c'. ran changed c'))
  unfolding write_audit_id write_audit best_effort follow choose attempt machine Trail.log
      AuditRows.create session_tracking_token
  audited-Shut req d user x t c same shut = elim (Bool-cases ac.sign_in.audit) [
    | inl t ↦ rw t (gives_now (refl, shut, same))
    | inr f ↦ rw f (gives_now (refl, shut, same))
  ]

  -- Where the limit allows the request, the service changes the password, all services are
  -- enabled and no call after that fails, ChangePassword leaves no remember token of the account,
  -- no unrevoked API token, and no tracked session but the one of the request, clears the
  -- remember cookie, and puts the new stamp into the session.
  pub change_password-Shut :
      (keeps : ℕ → ℕ) (body : ChangePasswordRequest) (r : RateLimitResult) (req : Request)
      (d : PasswordDraws) (ttl at : ℕ) (t : Tables) (c : Context S)
      → (c.auth_user_id == 0) ≡ false
      → r.allowed ≡ true
      → Accounts.change_password ext keeps ac.min_pw_len d.salt d.now c.auth_user_id
          body.current_password body.new_password c.db
        ≡ done at (at_rest t)
      → ac.sign_in.remember ≡ some ttl
      → ac.sign_in.sessions ≡ true
      → (ac.api_tokens && ac.revoke_api_tokens_on_password_change) ≡ true
      → Gives
          (λ a c'.
            (a ≡ changed)
            × Shut c.auth_user_id c'
            × (c'.session
                ≡ on_session
                    (p.put (password_changed_at_key ac.sign_in.guard) (p.format_stamp at))
                    c.session))
          (change_password ext p ac keeps (some body) (some r) req d c)
  unfolding change_password password_answer revoke_remember terminate_others revoke_api_tokens
      best_effort follow choose attempt with_session clear_remember_cookie enforce_rate_limit
      machine Remember.revoke_all_for_user Sessions.terminate_others ApiTokens.revoke_all
      RememberRows.delete_by_user SessionRows.delete_others_for_user TokenRows.revoke_all_by_user
      session_tracking_token
  change_password-Shut keeps body r req d ttl at t c someone allowed done_at remember sessions
        tokens =
      rw (someone, allowed, done_at, remember, sessions, tokens)
        (audited-Shut req d c.auth_user_id _ _
          (record c {
            session =
                on_session (p.put (password_changed_at_key ac.sign_in.guard) (p.format_stamp at))
                  c.session;
            remember_cookie = cleared;
          })
          refl
          (
            without-user c.auth_user_id t.remember_tokens,
            kept-current c.auth_user_id _ t.sessions,
            revoke_rows-AllRevoked c.auth_user_id d.revoked_at t.api_tokens,
            refl,
          ))
