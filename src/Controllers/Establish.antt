-- ===== src/Controllers/Establish.antt =====
-- http/controllers/auth.go: what the rest of a login keeps of the session.
use goravel_authkit.Base.{ℕ, ◌≡◌, refl, Bool, Option, none, some, is_some, ◌&&◌, not}
use goravel_authkit.Text.{Str, lit, str_eq}
use goravel_authkit.Errors.{Result, ok, err}
use goravel_authkit.Models.{User}
use goravel_authkit.External.{External}
use goravel_authkit.Http.{Context, Platform, Request, W}
use goravel_authkit.Http.Rules.{
  Gives, Keeps, Regenerates, follow-Gives, follow-Keeps, choose-Keeps, give-Keeps, attempt-Keeps,
  with_session-Keeps, with_session-Gives, set_remember_cookie-Keeps, regenerate-Keeps, gives_now,
}
use goravel_authkit.Helpers.{session_tracking_token_key, session_tracking_token, new_session_token}
use goravel_authkit.Responses.{json, account, new_user_response}
use goravel_authkit.Services.Audit.{AuditEntry}
use goravel_authkit.Controllers.{
  Stamp, SignIn, Draws, best_effort, write_audit, issue_remember, keep_cookie, start_tracking,
  track_login, audit_login, settled, establish,
}

module _ {τ} {S : Type 0} (R : Option S → Type τ) where
  pub best_effort-Keeps : {A : Type 0} (m : W S A) → Keeps R m → Keeps R (best_effort m)
  unfolding best_effort
  best_effort-Keeps m h = follow-Keeps R m _ h (λ a. give-Keeps R tt)

  pub write_audit-Keeps :
      (enabled : Bool) (s : Stamp) (e : AuditEntry) → Keeps R (write_audit enabled s e)
  unfolding write_audit
  write_audit-Keeps enabled s e =
      choose-Keeps R enabled _ _ (best_effort-Keeps _ (attempt-Keeps R _)) (give-Keeps R tt)

  module _ (ext : External) (p : Platform S) where
    keep_cookie-Keeps : (ttl : ℕ) (value : Result Str) → Keeps R (keep_cookie ext p ttl value)
    keep_cookie-Keeps ttl (err e) = give-Keeps R tt
    keep_cookie-Keeps ttl (ok value) = set_remember_cookie-Keeps R value ttl

    issue_remember-Keeps :
        (remember : Option ℕ) (d : Draws) (wanted : Bool) (u : User)
        → Keeps R (issue_remember ext p remember d wanted u)
    unfolding issue_remember
    issue_remember-Keeps none d wanted u = give-Keeps R tt
    issue_remember-Keeps (some ttl) d wanted u =
        choose-Keeps R wanted _ _
          (follow-Keeps R _ _ (attempt-Keeps R _) (λ value. keep_cookie-Keeps ttl value))
          (give-Keeps R tt)

    -- `R` does not look at the token of the tracked session.
    abbrev pub Tracks : (guard : Str) → Type τ
    Tracks guard =
        (v : Str) (s : S) → R (some s) → R (some (p.put (session_tracking_token_key guard) v s))

    start_tracking-Keeps :
        (guard : Str) (req : Request) (d : Draws) (u : User) (old : Str)
        → Tracks guard
        → Keeps R (start_tracking ext p guard req d u old)
    unfolding start_tracking
    start_tracking-Keeps guard req d u old h =
        follow-Keeps R _ _
          (choose-Keeps R (not (str_eq old (lit ""))) _ _ (best_effort-Keeps _ (attempt-Keeps R _))
            (give-Keeps R tt))
          λ _.
            follow-Keeps R _ _ (with_session-Keeps R _ (h (new_session_token d.token_bytes)))
              λ _. best_effort-Keeps _ (attempt-Keeps R _)

    pub track_login-Keeps :
        (i : SignIn) (req : Request) (d : Draws) (u : User)
        → Tracks i.guard
        → Keeps R (track_login ext p i req d u)
    unfolding track_login
    track_login-Keeps i req d u h c =
        choose-Keeps R (i.sessions && is_some c.session) _ _
          (start_tracking-Keeps i.guard req d u (session_tracking_token p i.guard c) h)
          (give-Keeps R tt) c

    pub audit_login-Keeps :
        (i : SignIn) (req : Request) (d : Draws) (action : Str) (u : User)
        → Keeps R (audit_login ext p i req d action u)
    unfolding audit_login
    audit_login-Keeps i req d action u = write_audit-Keeps i.audit d.audit _

-- From `Before` at the login to `R`: the new id of the session keeps `Before`, the marks of the
-- login turn it into `R`, and the rest keeps `R`.
module _ {τ} {S : Type 0} (Before R : Option S → Type τ) (ext : External) (p : Platform S)
    (i : SignIn) where
  pub establish-Gives :
      (req : Request) (d : Draws) (wanted : Bool) (u : User) (c : Context S)
      → Regenerates Before p
      → ((s : S) → Before (some s) → R (some (settled ext p i.guard u s)))
      → (Before none → R none)
      → Tracks R ext p i.guard
      → Before c.session
      → Gives
          (λ a c'. (a ≡ json 200 (account (new_user_response p u))) × R c'.session)
          (establish ext p i req d wanted u c)
  unfolding establish
  establish-Gives req d wanted u c regen mark none_kept tracks b =
      follow-Gives _ (regenerate-Keeps Before p regen c b) λ _ c1 b1.
        follow-Gives _ (with_session-Gives R Before _ c1 mark none_kept b1) λ _ c2 r2.
          follow-Gives _ (issue_remember-Keeps R ext p i.remember d wanted u c2 r2) λ _ c3 r3.
            follow-Gives _ (track_login-Keeps R ext p i req d u tracks c3 r3) λ _ c4 r4.
              follow-Gives _ (audit_login-Keeps R ext p i req d (lit "auth.login") u c4 r4)
                λ _ c5 r5. gives_now (refl, r5)
