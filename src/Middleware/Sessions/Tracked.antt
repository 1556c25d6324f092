-- ===== src/Middleware/Sessions/Tracked.antt =====
-- http/middleware/track_session.go, http/middleware/impersonation.go: proofs about when a request
-- is stopped.
use goravel_authkit.Base.{
  ℕ, ◌≡◌, refl, ap, ◌∙◌, Bool, true, false, not, ◌&&◌, Option, none, some, inl, inr, ◌==◌,
  if◌then◌else◌, is_some, ltb, count, arith, Bool-cases, Option-cases,
}
use goravel_authkit.Text.{Str, lit, str_eq}
use goravel_authkit.Text.Laws.{str_eq_refl}
use goravel_authkit.Errors.{Result, ok, err}
use goravel_authkit.Store.{Db, machine, fault}
use goravel_authkit.Http.{
  Context, Platform, attempt, session_user, signed_in, on_session, guard_logout, with_session,
}
use goravel_authkit.Http.Laws.{IsLawful}
use goravel_authkit.Http.Rules.{Gives, gives_now, choose-Gives, follow-Gives}
use goravel_authkit.Helpers.{session_tracking_token}
use goravel_authkit.Repositories.Sessions
use goravel_authkit.Repositories.Sessions.{has_session_id}
use goravel_authkit.Services.Sessions.{touch}
use goravel_authkit.Middleware.Sessions.{Passage, passed, aborted, track_session, if_alive}

abbrev pub unreachable : Db → Bool
unreachable db = is_some (fault db.faults)

-- The token has no row, and the database could be asked.
abbrev pub is_gone : (token : Str) → Db → Bool
is_gone token db =
    not (str_eq token (lit ""))
    && (not (unreachable db) && count (has_session_id token) db.tables.sessions == 0)

abbrev alive : Result Bool → Bool
alive (err e) = true
alive (ok b) = b

positive : (n : ℕ) → ltb 0 n ≡ not (n == 0)
positive n = ground arith

module _ {S : Type 0} where
  touched-Gives :
      (token : Str) (now : ℕ) (c : Context S)
      → Gives
          (λ r c'. (c'.session ≡ c.session) × (alive r ≡ not (is_gone token c.db)))
          (attempt (touch now token) c)
  unfolding attempt touch machine Sessions.touch_last_active
  touched-Gives token now c = elim (Bool-cases (str_eq token (lit ""))) [
    | inl blank ↦ rw blank (gives_now (refl, refl))
    | inr full ↦ elim (Option-cases (fault c.db.faults)) [
      | inl calm ↦ rw (full, calm) (gives_now (refl, positive _))
      | inr (text, broken) ↦ rw (full, broken) (gives_now (refl, refl))
    ]
  ]

module _ {S : Type 0} (p : Platform S) (laws : IsLawful p) (guard : Str) where
  abbrev pub is_terminated : Context S → Bool
  is_terminated c = is_some c.session && is_gone (session_tracking_token p guard c) c.db

  abbrev pub Enforces : Context S → (terminated : Bool) → Passage → Context S → Type 0
  Enforces c terminated r c' =
      (r ≡ (if terminated then aborted 401 (lit "session_terminated") else passed))
      × (session_user p guard c' ≡ (if terminated then none else session_user p guard c))

  signed_out : (o : Option S) → signed_in p guard (on_session (p.guard_logout guard) o) ≡ none
  signed_out none = refl
  signed_out (some s) =
      laws.id-logout guard guard s
      ∙ ap (λ b. if b then none else p.guard_id guard s) (str_eq_refl guard)

  logout-Gives :
      (c : Context S) → Gives (λ _ c'. signed_in p guard c'.session ≡ none) (guard_logout p guard c)
  unfolding guard_logout with_session
  logout-Gives c = gives_now (signed_out c.session)

  if_alive-Enforces :
      (c c1 : Context S) (terminated : Bool) (r : Result Bool)
      → c1.session ≡ c.session
      → alive r ≡ not terminated
      → Gives (Enforces c terminated) (if_alive p guard r c1)
  if_alive-Enforces c c1 true (err e) same h = absurd (cc)
  if_alive-Enforces c c1 false (err e) same h = gives_now (refl, ap (signed_in p guard) same)
  if_alive-Enforces c c1 true (ok true) same h = absurd (cc)
  if_alive-Enforces c c1 false (ok true) same h = gives_now (refl, ap (signed_in p guard) same)
  if_alive-Enforces c c1 false (ok false) same h = absurd (cc)
  if_alive-Enforces c c1 true (ok false) same h =
      follow-Gives _ (logout-Gives c1) λ _ c2 out. gives_now (refl, out)

  -- TrackSession signs out and refuses a session exactly if it has a token without a row and the
  -- database can be asked; an error of the database lets the session through as it is.
  pub track_session-Enforces :
      (now : ℕ) (c : Context S) → Gives (Enforces c (is_terminated c)) (track_session p guard now c)
  unfolding track_session
  track_session-Enforces now c =
      choose-Gives (is_some c.session) _ _ c
        (λ here. rw here (
          follow-Gives _ (touched-Gives (session_tracking_token p guard c) now c)
            λ r c1 h. if_alive-Enforces c c1 _ r h.0 h.1))
        (λ absent. rw absent (gives_now (refl, refl)))
