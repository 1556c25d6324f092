-- ===== src/Controllers/Impersonation/Leftover.antt =====
-- http/controllers/auth.go with helpers/impersonation.go: the marker across Logout and a login.
use goravel_authkit.Base.{ℕ, ◌≡◌, refl, ◌∙◌, Bool, not, Option, none, some, ◌==◌}
use goravel_authkit.Text.{Str, lit, str_eq}
use goravel_authkit.Errors.{Result, ok, err}
use goravel_authkit.Models.{User}
use goravel_authkit.External.{External}
use goravel_authkit.Http.{
  Context, Platform, Request, ImpersonatorMarker, follow, guard_logout, guard_login, replaced,
  log_in_to,
}
use goravel_authkit.Http.Laws.{IsLawful}
use goravel_authkit.Http.Rules.{
  Gives, Keeps, follow-Gives, follow-Keeps, choose-Keeps, give-Keeps, attempt-Keeps,
  with_session-Keeps, clear_remember_cookie-Keeps, gives_now, Gives-imp,
}
use goravel_authkit.Helpers.{
  password_changed_at, session_token, two_factor_user_id, remember_intent, impersonator_of,
}
use goravel_authkit.Helpers.Marked.{
  marker_in, put-marker, forget-marker, login-marker, logout-marker, regenerate-marker,
}
use goravel_authkit.Controllers.{Draws, Stamp, complete_login}
use goravel_authkit.Controllers.Establish.{best_effort-Keeps, write_audit-Keeps, establish-Gives}
use goravel_authkit.Controllers.Auth.{
  AuthController, logout, drop_remember, forget_tracking, write_audit_user, write_audit_id,
}

module _ {S : Type 0} (ext : External) (p : Platform S) (laws : IsLawful p) (ac : AuthController)
    (x : Option ImpersonatorMarker) where
  -- The marker of the guard is `x`.
  abbrev HasMarker : Option S → Type 0
  HasMarker o = marker_in p ac.sign_in.guard o ≡ x

  write_user-Keeps :
      (req : Request) (s : Stamp) (action : Str) (r : Result User)
      → Keeps HasMarker (write_audit_user ext p ac req s action r)
  unfolding write_audit_user write_audit_id
  write_user-Keeps req s action (err e) = give-Keeps HasMarker tt
  write_user-Keeps req s action (ok u) =
      choose-Keeps HasMarker (u.id == 0) _ _ (give-Keeps HasMarker tt)
        (write_audit-Keeps HasMarker _ _ _)

  drop_remember-Keeps :
      (remember : Option ℕ) (cookie : Str)
      → Keeps HasMarker (drop_remember ext p ac remember cookie)
  unfolding drop_remember
  drop_remember-Keeps none cookie = give-Keeps HasMarker tt
  drop_remember-Keeps (some ttl) cookie =
      follow-Keeps HasMarker _ _
        (choose-Keeps HasMarker (not (str_eq cookie (lit ""))) _ _
          (best_effort-Keeps HasMarker _ (attempt-Keeps HasMarker _)) (give-Keeps HasMarker tt))
        (λ _. clear_remember_cookie-Keeps HasMarker)

  forget_tracking-Keeps :
      (enabled : Bool) (token : Str) → Keeps HasMarker (forget_tracking ext p ac enabled token)
  unfolding forget_tracking
  forget_tracking-Keeps enabled token =
      choose-Keeps HasMarker enabled _ _ (best_effort-Keeps HasMarker _ (attempt-Keeps HasMarker _))
        (give-Keeps HasMarker tt)

  logout-Keeps : (req : Request) (s : Stamp) → Keeps HasMarker (logout ext p ac req s)
  unfolding logout guard_logout
  logout-Keeps req s =
      let g = ac.sign_in.guard in
      follow-Keeps HasMarker _ _ (λ c r. gives_now r)
        λ id. follow-Keeps HasMarker _ _ (attempt-Keeps HasMarker _) λ found.
          follow-Keeps HasMarker _ _ (λ c r. gives_now r)
            λ token.
              follow-Keeps HasMarker _ _
                (with_session-Keeps HasMarker _ (λ y r. logout-marker p laws g g y ∙ r))
                λ _.
                  follow-Keeps HasMarker _ _
                    (with_session-Keeps HasMarker _ (λ y r.
                      forget-marker p laws g session_token g _ refl
                      ∙ (forget-marker p laws g password_changed_at g y refl ∙ r)))
                    λ _.
                      follow-Keeps HasMarker _ _ (forget_tracking-Keeps ac.sign_in.sessions token)
                        λ _.
                          follow-Keeps HasMarker _ _ (drop_remember-Keeps ac.sign_in.remember _)
                            λ _.
                              follow-Keeps HasMarker _ _ (write_user-Keeps req s _ found)
                                λ _. give-Keeps HasMarker _

  replaced-Keeps :
      (c : Context S) (o : Option S)
      → HasMarker c.session
      → ((t : S) → o ≡ some t → HasMarker (some t))
      → Gives (λ _ c'. HasMarker c'.session) (replaced p c o)
  replaced-Keeps c none r h = gives_now r
  replaced-Keeps c (some t) r h = gives_now (h t refl)

  login_in-Keeps :
      (id : Str) (o : Option S) (t : S)
      → HasMarker o
      → log_in_to p ac.sign_in.guard id o ≡ some t
      → HasMarker (some t)
  login_in-Keeps id none t r e = absurd (cc)
  login_in-Keeps id (some y) t r e =
      login-marker p laws ac.sign_in.guard ac.sign_in.guard id y t e ∙ r

  guard_login-Keeps : (user : ℕ) → Keeps HasMarker (guard_login p ac.sign_in.guard user)
  unfolding guard_login
  guard_login-Keeps user c r =
      replaced-Keeps c (log_in_to p ac.sign_in.guard (p.uuid_string user) c.session) r
        (λ t e. login_in-Keeps (p.uuid_string user) c.session t r e)

  complete_login-Keeps :
      (req : Request) (d : Draws) (wanted : Bool) (u : User)
      → Keeps HasMarker (complete_login ext p ac.sign_in req d wanted u)
  unfolding complete_login
  complete_login-Keeps req d wanted u =
      let g = ac.sign_in.guard in
      follow-Keeps HasMarker _ _ (guard_login-Keeps u.id) λ b.
        choose-Keeps HasMarker b _ _
          (λ c r.
            Gives-imp _
              (establish-Gives HasMarker HasMarker ext p ac.sign_in req d wanted u c
                (λ s t k h. regenerate-marker p laws g s t k ∙ h)
                (λ s h.
                  forget-marker p laws g remember_intent g _ refl
                  ∙ (forget-marker p laws g two_factor_user_id g _ refl
                      ∙ (put-marker p laws g password_changed_at g _ s refl ∙ h)))
                (λ h. h) (λ v s h. put-marker p laws g session_token g v s refl ∙ h) r)
              (λ a c' h. h.1))
          (give-Keeps HasMarker _)

module _ {S : Type 0} (ext : External) (p : Platform S) (laws : IsLawful p)
    (ac : AuthController) where
  -- After Logout and a completed login on the same session the marker of the guard is the one
  -- from before Logout.
  pub logout-complete_login-marker :
      (req req' : Request) (s : Stamp) (d : Draws) (wanted : Bool) (u : User) (c : Context S)
      → Gives
          (λ _ c'. impersonator_of p ac.sign_in.guard c' ≡ impersonator_of p ac.sign_in.guard c)
          (follow (logout ext p ac req s c) (λ _. complete_login ext p ac.sign_in req' d wanted u))
  unfolding impersonator_of
  logout-complete_login-marker req req' s d wanted u c =
      let x = marker_in p ac.sign_in.guard c.session in
      follow-Gives _ (logout-Keeps ext p laws ac x req s c refl)
        λ _ c1 h. complete_login-Keeps ext p laws ac x req' d wanted u c1 h
