-- ===== src/Middleware/Sessions/Restored.antt =====
-- http/middleware/remember.go: proofs about whom a remember cookie signs in.
use goravel_authkit.Base.{
  ℕ, ◌≡◌, refl, ap, sym, ◌∙◌, false, not, List, Option, none, some, ◌⊎◌, inl, inr, is_some,
  if◌then◌else◌,
}
use goravel_authkit.Text.{Str, lit, str_eq}
use goravel_authkit.Text.Laws.{str_eq_refl}
use goravel_authkit.Errors.{Result, ok, err}
use goravel_authkit.Models.{User, is_disabled}
use goravel_authkit.External.{External}
use goravel_authkit.Store.{Db, Tables}
use goravel_authkit.Store.Laws.{Ensures}
use goravel_authkit.Store.Calls.{query-Ensures}
use goravel_authkit.Http.{
  Context, Platform, Request, session_user, signed_in, guard_logout, on_session,
}
use goravel_authkit.Http.Laws.{IsLawful}
use goravel_authkit.Http.Rules.{
  Gives, follow-Gives, choose-Gives, choose-Keeps, give-Keeps, attempt-Gives, attempt-Keeps,
  with_session-Gives, regenerate-Keeps, clear_remember_cookie-Keeps, set_remember_cookie-Keeps,
  gives_now, Gives-imp, Answered,
}
use goravel_authkit.Helpers.Signed.{Signed, stamp-Signed, regenerate-Signed}
use goravel_authkit.Repositories.Users
use goravel_authkit.Repositories.Users.{select_id}
use goravel_authkit.Services.Remember
use goravel_authkit.Services.Remember.Rotation.{Genuine}
use goravel_authkit.Services.Remember.Accounts.{resolve-Ensures}
use goravel_authkit.Controllers.{SignIn, Draws}
use goravel_authkit.Controllers.Establish.{best_effort-Keeps, track_login-Keeps, audit_login-Keeps}
use goravel_authkit.Controllers.Completed.{guard_login-Gives, Tracks-Signed, signed_of, refused_of}
use goravel_authkit.Middleware.Sessions.{
  Passage, passed, restore, close_remembered, restored_row, resolved, remember_login, closed,
}

module _ {S : Type 0} (p : Platform S) (laws : IsLawful p) (ext : External) (i : SignIn)
    (ttl : ℕ) where
  -- The session is that of an account that is not locked, with the stamp of its password; the
  -- cookie is a genuine one of this account.
  abbrev pub Restored : (cookie : Str) → (now : ℕ) → Tables → Context S → Type 0
  Restored cookie now t c =
      (owner : ℕ) × (u : User) × Genuine ext cookie now t.remember_tokens owner
      × (select_id owner t.users ≡ some u)
      × (is_disabled u ≡ false)
      × Signed p i.guard (p.uuid_string owner) (p.format_stamp u.password_changed_at) c.session

  abbrev pub Remembers : (cookie : Str) → (now : ℕ) → Context S → Passage → Context S → Type 0
  Remembers cookie now c r c' =
      (r ≡ passed)
      × ((session_user p i.guard c' ≡ session_user p i.guard c)
          ⊎ (session_user p i.guard c' ≡ none)
          ⊎ Restored cookie now c.db.tables c')

  closed-Gives :
      (R : Option S → Type 0) (c : Context S)
      → R c.session
      → Gives (λ r c'. (r ≡ passed) × R c'.session) (closed p ext i ttl c)
  closed-Gives R c h =
      follow-Gives _ (clear_remember_cookie-Keeps R c h) λ _ c' h'. gives_now (refl, h')

  logged_out : (o : Option S) → signed_in p i.guard (on_session (p.guard_logout i.guard) o) ≡ none
  logged_out none = refl
  logged_out (some s) =
      laws.id-logout i.guard i.guard s
      ∙ ap (λ b. if b then none else p.guard_id i.guard s) (str_eq_refl i.guard)

  logout-Gives :
      (c : Context S)
      → Gives (λ _ c'. signed_in p i.guard c'.session ≡ none) (guard_logout p i.guard c)
  unfolding guard_logout
  logout-Gives c = gives_now (logged_out c.session)

  close_remembered-Gives :
      (owner : ℕ) (c : Context S)
      → Gives
          (λ r c'. (r ≡ passed) × (signed_in p i.guard c'.session ≡ none))
          (close_remembered p ext i ttl owner c)
  unfolding close_remembered
  close_remembered-Gives owner c = follow-Gives _ (logout-Gives c) λ _ c1 out.
      follow-Gives _
        (best_effort-Keeps (λ o. signed_in p i.guard o ≡ none) _
          (attempt-Keeps (λ o. signed_in p i.guard o ≡ none) _) c1 out)
        λ _ c2 out'. closed-Gives (λ o. signed_in p i.guard o ≡ none) c2 out'

  restore-Gives :
      (req : Request) (d : Draws) (rotated : Str) (owner : ℕ) (u : User) (c : Context S)
      → signed_in p i.guard c.session ≡ some (p.uuid_string owner)
      → Gives
          (λ r c'.
            (r ≡ passed)
            × Signed p i.guard
                (p.uuid_string owner)
                (p.format_stamp u.password_changed_at)
                c'.session)
          (restore p ext i ttl req d rotated u c)
  unfolding restore
  restore-Gives req d rotated owner u c h =
      let id = p.uuid_string owner in
      let stamp = p.format_stamp u.password_changed_at in
      let R = Signed p i.guard id stamp in
      follow-Gives _
        (with_session-Gives R (λ o. signed_in p i.guard o ≡ some id) _ c
          (λ s k. stamp-Signed p laws i.guard id stamp s k) (λ k. absurd (cc)) h)
        λ _ c1 r1.
          follow-Gives _
            (regenerate-Keeps R p (λ s t g k. regenerate-Signed p laws i.guard id stamp s t g k) c1
              r1)
            λ _ c2 r2.
              follow-Gives _
                (track_login-Keeps R ext p i req d u (Tracks-Signed p laws ext i.guard id stamp) c2
                  r2)
                λ _ c3 r3.
                  follow-Gives _
                    (choose-Keeps R (not (str_eq rotated (lit ""))) _ _
                      (set_remember_cookie-Keeps R rotated ttl) (give-Keeps R tt) c3 r3)
                    λ _ c4 r4.
                      follow-Gives _
                        (audit_login-Keeps R ext p i req d (lit "auth.login_remember") u c4 r4)
                        λ _ c5 r5. gives_now (refl, r5)

  module _ (req : Request) (d : Draws) (now : ℕ) (c : Context S) where
    abbrev OutcomeOf : Passage → Context S → Type 0
    OutcomeOf = Remembers req.remember_cookie now c

    row_found :
        (owner : ℕ) (rotated : Str) (row : Option User) (c2 : Context S)
        → Genuine ext req.remember_cookie now c.db.tables.remember_tokens owner
        → select_id owner c.db.tables.users ≡ row
        → signed_in p i.guard c2.session ≡ some (p.uuid_string owner)
        → Gives OutcomeOf (restored_row p ext i ttl req d owner rotated (ok row) c2)
    row_found owner rotated none c2 genuine found h =
        Gives-imp _ (close_remembered-Gives owner c2) (λ r c' k. (k.0, inr (inl k.1)))
    row_found owner rotated (some u) c2 genuine found h =
        choose-Gives (is_disabled u) _ _ c2
          (λ _. Gives-imp _ (close_remembered-Gives owner c2) (λ r c' k. (k.0, inr (inl k.1))))
          λ live.
            Gives-imp _ (restore-Gives req d rotated owner u c2 h)
              λ r c' k. (k.0, inr (inr (owner, u, genuine, found, live, k.1)))

    row_answered :
        (owner : ℕ) (rotated : Str) (r : Result (Option User)) (c1 c2 : Context S)
        → Genuine ext req.remember_cookie now c.db.tables.remember_tokens owner
        → signed_in p i.guard c1.session ≡ some (p.uuid_string owner)
        → (c2.session ≡ c1.session)
          × Answered
              (λ row _. select_id owner c.db.tables.users ≡ row)
              (λ _. Unit {0})
              r
              c2.db.tables
        → Gives OutcomeOf (restored_row p ext i ttl req d owner rotated r c2)
    row_answered owner rotated (err e) c1 c2 genuine h k =
        Gives-imp _ (close_remembered-Gives owner c2) (λ r c' out. (out.0, inr (inl out.1)))
    row_answered owner rotated (ok row) c1 c2 genuine h k =
        row_found owner rotated row c2 genuine k.1 (ap (signed_in p i.guard) k.0 ∙ h)

    find-Ensures :
        (owner : ℕ) (db : Db)
        → db.tables.users ≡ c.db.tables.users
        → Ensures
            (λ row _. select_id owner c.db.tables.users ≡ row)
            (λ _. Unit {0})
            (Users.find_by_id owner db)
    unfolding Users.find_by_id
    find-Ensures owner db same =
        query-Ensures (λ t. select_id owner t.users) db tt (ap (select_id owner) (sym same))

    kept : (c1 : Context S) → c1.session ≡ c.session → Gives OutcomeOf (closed p ext i ttl c1)
    kept c1 same =
        Gives-imp _
          (closed-Gives (λ o. signed_in p i.guard o ≡ session_user p i.guard c) c1
            (ap (signed_in p i.guard) same))
          (λ r c' k. (k.0, inl k.1))

    cookie_resolved :
        (r : Result (ℕ × Str)) (c1 : Context S)
        → (c1.session ≡ c.session)
          × Answered
              (λ r t.
                Genuine ext req.remember_cookie now c.db.tables.remember_tokens r.0
                × (t.users ≡ c.db.tables.users))
              (λ t. t.users ≡ c.db.tables.users)
              r
              c1.db.tables
        → Gives OutcomeOf (resolved p ext i ttl req d r c1)
    cookie_resolved (err e) c1 h = kept c1 h.0
    cookie_resolved (ok (owner, rotated)) c1 h =
        follow-Gives _ (guard_login-Gives p laws i.guard owner c1) λ b c2 logged.
          choose-Gives b _ _ c2
            (λ yes_b.
              follow-Gives _
                (attempt-Gives (Users.find_by_id owner) c2
                  (find-Ensures owner c2.db (ap (λ (x : Db). x.tables.users) logged.0 ∙ h.1.1)))
                λ row c3 found.
                  row_answered owner rotated row c2 c3 h.1.0
                    (signed_of p laws i.guard (p.uuid_string owner) b c1 c2 logged yes_b) found)
            (λ no_b.
              kept c2 (refused_of p laws i.guard (p.uuid_string owner) b c1 c2 logged no_b ∙ h.0))

    -- RememberLogin always lets the request pass. The user of the session is then the one that it
    -- had before, or nobody, or the owner of a genuine cookie, whose account exists and is not
    -- disabled, with the stamp of its password.
    pub remember_login-Restored :
        (bytes : Option (List ℕ)) → Gives OutcomeOf (remember_login p ext i ttl req d now bytes c)
    unfolding remember_login
    remember_login-Restored bytes =
        choose-Gives (is_some (session_user p i.guard c)) _ _ c (λ _. gives_now (refl, inl refl))
          λ _.
            choose-Gives (str_eq req.remember_cookie (lit "")) _ _ c
              (λ _. gives_now (refl, inl refl))
              λ _.
                follow-Gives _
                  (attempt-Gives (Remember.resolve ext ttl req.remember_cookie now bytes) c
                    (resolve-Ensures ext ttl req.remember_cookie now bytes c.db))
                  λ r c1 h. cookie_resolved r c1 h
