-- ===== src/Controllers/Impersonation/Stop.antt =====
-- http/controllers/impersonation.go: proofs about Stop, who is signed in afterwards.
use goravel_authkit.Base.{
  ℕ, ◌≡◌, refl, ap, ◌∙◌, true, false, [], Option, none, some, inl, inr, if◌then◌else◌, Bool-cases,
}
use goravel_authkit.Text.{Str, lit, str_eq}
use goravel_authkit.Text.Laws.{str_eq_refl}
use goravel_authkit.Models.{User}
use goravel_authkit.Store.{Db, done, query, machine}
use goravel_authkit.Http.{
  Context, Platform, Request, ImpersonatorMarker, attempt, signed_in, stored, guard_login,
  guard_logout, follow, choose, log_in_to, replaced, with_session, ◌>>◌, give,
}
use goravel_authkit.Http.Laws.{IsLawful}
use goravel_authkit.Http.Rules.{
  Gives, follow-Gives, with_session-Gives, regenerate-Keeps, gives_now, Gives-imp,
}
use goravel_authkit.Helpers.{
  password_changed_at, impersonator, password_changed_at_key, impersonator_key, impersonator_of,
  clear_impersonator,
}
use goravel_authkit.Helpers.Signed.{
  Signed, stamp-Signed, forget-Signed, regenerate-Signed, id-forget_key, get-forget_key,
  get-logout_key,
}
use goravel_authkit.Helpers.Marked.{marker_in, forget-marker_self, regenerate-marker}
use goravel_authkit.Responses.{Answer, json, message, internal_error}
use goravel_authkit.Repositories.Users.{select_id, find_by_id}
use goravel_authkit.Controllers.{Stamp}
use goravel_authkit.Controllers.Establish.{write_audit-Keeps}
use goravel_authkit.Controllers.Completed.{logged_in_id}
use goravel_authkit.Controllers.Impersonation.{
  ImpersonationController, find_in, write_audit_between, stamp_session, drop_session, finish_stop,
  stop_marked, stop,
}
use goravel_authkit.Controllers.Impersonation.Switch.{accounts_of}

module _ {S : Type 0} (p : Platform S) (laws : IsLawful p) (ic : ImpersonationController)
    (req : Request) (s : Stamp) where
  abbrev pub ended : Answer
  ended = json 200 (message (lit "Impersonation ended"))

  -- What the end of Stop keeps, and that the marker is gone.
  finish_stop-Gives :
      (R : Option S → Type 0) (m : ImpersonatorMarker) (target : ℕ) (c : Context S)
      → ((x : S) → R (some x) → R (some (p.forget (impersonator_key ic.guard) x)))
      → ((x t : S) → p.regenerate x ≡ some t → R (some x) → R (some t))
      → R c.session
      → Gives
          (λ a c'. (a ≡ ended) × R c'.session × (marker_in p ic.guard c'.session ≡ none))
          (finish_stop p ic req s m target c)
  unfolding finish_stop clear_impersonator write_audit_between
  finish_stop-Gives R m target c forgets regenerates r =
      let Q : Option S → Type 0 = λ o. R o × (marker_in p ic.guard o ≡ none) in
      follow-Gives _
        (with_session-Gives Q R (p.forget (impersonator_key ic.guard)) c
          (λ x k. (forgets x k, forget-marker_self p laws ic.guard x)) (λ k. (k, refl)) r)
        λ _ c1 h1.
          follow-Gives _
            (regenerate-Keeps Q p
              (λ x t g k. (regenerates x t g k.0, regenerate-marker p laws ic.guard x t g ∙ k.1)) c1
              h1)
            λ _ c2 h2.
              follow-Gives _ (write_audit-Keeps Q _ _ _ c2 h2)
                λ _ c3 h3. gives_now (refl, h3.0, h3.1)

  module _ (m : ImpersonatorMarker) (target : ℕ) (actor : User) where
    -- The session is the actor's again, with the stamp of the actor's password, and not marked.
    abbrev pub Restored : Context S → Type 0
    Restored c =
        Signed p ic.guard (p.uuid_string actor.id) (p.format_stamp actor.password_changed_at)
          c.session
        × (marker_in p ic.guard c.session ≡ none)

    -- What becomes of a Stop whose login at the guard gives `logged`; `none` is its failure.
    abbrev pub Stopped : (before logged : Option S) → Answer → Context S → Type 0
    Stopped before none a c = (a ≡ internal_error) × (c.session ≡ before)
    Stopped before (some x) a c = (a ≡ ended) × Restored c

    replaced-Stopped :
        (logged : Option S) (c : Context S)
        → ((x : S) → logged ≡ some x → p.guard_id ic.guard x ≡ some (p.uuid_string actor.id))
        → Gives (Stopped c.session logged) (
            follow (replaced p c logged) (λ established.
              choose established
                (with_session (stamp_session p ic ic.guard actor)
                  >> finish_stop p ic req s m target)
                (give internal_error)))
    unfolding follow choose
    replaced-Stopped none c signs = gives_now (refl, refl)
    replaced-Stopped (some y) c signs =
        let id = p.uuid_string actor.id in
        let stamp = p.format_stamp actor.password_changed_at in
        follow-Gives _
          (with_session-Gives (Signed p ic.guard id stamp) (λ o. signed_in p ic.guard o ≡ some id)
            (stamp_session p ic ic.guard actor) (record c { session = some y })
            (λ x k. stamp-Signed p laws ic.guard id stamp x k) (λ k. absurd (cc)) (signs y refl))
          λ _ c2 h2.
            Gives-imp _
              (finish_stop-Gives (Signed p ic.guard id stamp) m target c2
                (λ x k. forget-Signed p laws impersonator ic.guard id stamp x refl k)
                (λ x t g k. regenerate-Signed p laws ic.guard id stamp x t g k) h2)
              (λ a c3 h. (h.0, (h.1, h.2)))

  at_rest_find :
      (guard : Str) (id : ℕ) (db : Db)
      → db.faults ≡ []
      → find_in p ic guard id db
        ≡ done (select_id id (accounts_of p laws ic guard db.tables)) (record db { faults = [] })
  unfolding find_in find_by_id machine
  at_rest_find guard id db rest = elim (Bool-cases (str_eq guard ic.guard)) [
    | inl own ↦ rw (own, find_by_id, rest) refl
    | inr other ↦ rw (other, query, rest) refl
  ]

  -- Where the actor is of the same guard and still has an account, and no call fails, Stop gives
  -- the session back to the actor, with the stamp of the actor's password and without the marker,
  -- if the login at the guard succeeds; if that fails, the answer is an internal error and the
  -- session is as it was.
  pub stop-Restored :
      (m : ImpersonatorMarker) (actor : User) (c : Context S)
      → impersonator_of p ic.guard c ≡ some m
      → m.same_guard ≡ true
      → select_id m.user_id (accounts_of p laws ic m.guard c.db.tables) ≡ some actor
      → c.db.faults ≡ []
      → Gives
          (Stopped m c.auth_user_id actor c.session
            (log_in_to p ic.guard (p.uuid_string actor.id) c.session))
          (stop p ic req s c)
  unfolding stop stop_marked follow choose attempt guard_login
  stop-Restored m actor c mark own found rest =
      rw (mark, own, at_rest_find m.guard m.user_id c.db rest, found)
        (replaced-Stopped m c.auth_user_id actor
          (log_in_to p ic.guard (p.uuid_string actor.id) c.session) (record c { db = _ })
          (logged_in_id p laws ic.guard (p.uuid_string actor.id) c.session))

  -- Nobody is signed in at this guard; at the guard `h` it is `id`, with this stamp.
  abbrev pub Beside : (h : Str) → (id stamp : Option Str) → Option S → Type 0
  Beside h id stamp o =
      (signed_in p ic.guard o ≡ none)
      × (signed_in p h o ≡ id)
      × (stored p (password_changed_at_key h) o ≡ stamp)

  module _ (h : Str) (other : str_eq ic.guard h ≡ false) where
    logout-Beside :
        (id stamp : Option Str) (x : S)
        → p.guard_id h x ≡ id
        → p.get (password_changed_at_key h) x ≡ stamp
        → Beside h id stamp (some (p.guard_logout ic.guard x))
    logout-Beside id stamp x k l = (
      laws.id-logout ic.guard ic.guard x
          ∙ ap (λ b. if b then none else p.guard_id ic.guard x) (str_eq_refl ic.guard),
      laws.id-logout ic.guard h x ∙ (ap (λ b. if b then none else p.guard_id h x) other ∙ k),
      get-logout_key p laws password_changed_at ic.guard h x ∙ l,
    )

    forget-Beside :
        (id stamp : Option Str) (x : S)
        → Beside h id stamp (some x)
        → Beside h id stamp (some (p.forget (password_changed_at_key ic.guard) x))
    forget-Beside id stamp x k = (
      id-forget_key p laws password_changed_at ic.guard ic.guard x ∙ k.0,
      id-forget_key p laws password_changed_at h ic.guard x ∙ k.1,
      get-forget_key p laws password_changed_at password_changed_at ic.guard h x
          ∙ (ap (λ b. if b then none else p.get (password_changed_at_key h) x) other ∙ k.2),
    )

    forget_marker-Beside :
        (id stamp : Option Str) (x : S)
        → Beside h id stamp (some x)
        → Beside h id stamp (some (p.forget (impersonator_key ic.guard) x))
    forget_marker-Beside id stamp x k = (
      id-forget_key p laws impersonator ic.guard ic.guard x ∙ k.0,
      id-forget_key p laws impersonator h ic.guard x ∙ k.1,
      get-forget_key p laws impersonator password_changed_at ic.guard h x ∙ k.2,
    )

    regenerate-Beside :
        (id stamp : Option Str) (x t : S)
        → p.regenerate x ≡ some t
        → Beside h id stamp (some x)
        → Beside h id stamp (some t)
    regenerate-Beside id stamp x t r k = (
      laws.id-regenerate ic.guard x t r ∙ k.0,
      laws.id-regenerate h x t r ∙ k.1,
      laws.get-regenerate (password_changed_at_key h) x t r ∙ k.2,
    )

    drop_session-Beside :
        (c : Context S)
        → Gives
            (λ _ c'.
              Beside h
                (signed_in p h c.session)
                (stored p (password_changed_at_key h) c.session)
                c'.session)
            (drop_session p ic c)
    unfolding drop_session guard_logout
    drop_session-Beside c =
        let id = signed_in p h c.session in
        let stamp = stored p (password_changed_at_key h) c.session in
        follow-Gives _
          (with_session-Gives (Beside h id stamp)
            (λ o. (signed_in p h o ≡ id) × (stored p (password_changed_at_key h) o ≡ stamp))
            (p.guard_logout ic.guard) c (λ x k. logout-Beside id stamp x k.0 k.1)
            (λ k. (refl, k.0, k.1)) (refl, refl))
          λ _ c1 h1.
            with_session-Gives (Beside h id stamp) (Beside h id stamp)
              (p.forget (password_changed_at_key ic.guard)) c1 (forget-Beside id stamp) (λ k. k) h1

    -- Where the actor is of another guard, Stop ends the session of this guard and clears the
    -- marker, and leaves the user and the stamp of every other guard alone.
    pub stop-Beside :
        (m : ImpersonatorMarker) (c : Context S)
        → impersonator_of p ic.guard c ≡ some m
        → m.same_guard ≡ false
        → Gives
            (λ a c'.
              (a ≡ ended)
              × Beside h
                  (signed_in p h c.session)
                  (stored p (password_changed_at_key h) c.session)
                  c'.session
              × (marker_in p ic.guard c'.session ≡ none))
            (stop p ic req s c)
    unfolding stop stop_marked choose
    stop-Beside m c mark across =
        let id = signed_in p h c.session in
        let stamp = stored p (password_changed_at_key h) c.session in
        rw (mark, across)
          (follow-Gives _ (drop_session-Beside c) λ _ c1 h1.
            finish_stop-Gives (Beside h id stamp) m c.auth_user_id c1
              (forget_marker-Beside id stamp) (regenerate-Beside id stamp) h1)
