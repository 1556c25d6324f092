-- ===== src/Controllers/TwoFactor/Challenge.antt =====
-- http/controllers/twofactor.go: proofs about whom the challenge signs in.
use mathlib.Core.Path.{subst}
use goravel_authkit.Base.{
  ℕ, ◌≡◌, refl, ap, sym, ◌∙◌, Bool, true, false, List, Option, none, some, ◌⊎◌, inl, inr, ◌==◌,
}
use goravel_authkit.Text.{Str}
use goravel_authkit.Errors.{Result, ok, err, not_found}
use goravel_authkit.Models.{User}
use goravel_authkit.External.{External}
use goravel_authkit.Store.{Db, Tables, Outcome, done, fail}
use goravel_authkit.Store.Laws.{Ensures, Reads, Reads-then, query-Reads, done-Reads, fail-Reads}
use goravel_authkit.Http.{Context, Platform, Request, follow, session_user, signed_in}
use goravel_authkit.Http.Laws.{IsLawful}
use goravel_authkit.Http.Rules.{
  Gives, follow-Gives, choose-Gives, attempt-Gives, attempt-Returned, Returned, Answered,
  follow-Keeps, give-Keeps, gives_now, Gives-imp,
}
use goravel_authkit.Responses.{Answer, TwoFactorChallengeRequest}
use goravel_authkit.Repositories.Users.{select_id, find_by_id}
use goravel_authkit.Services.Users.{get_by_id, or_fail}
use goravel_authkit.Services.TwoFactor
use goravel_authkit.Middleware.RateLimit.{RateLimitResult}
use goravel_authkit.Controllers.{SignIn, Draws, unless_answered}
use goravel_authkit.Controllers.Establish.{write_audit-Keeps}
use goravel_authkit.Controllers.Completed.{SignedAs, complete_login-Signed}
use goravel_authkit.Controllers.Auth.Gate.{enforce_rate_limit-Keeps}
use goravel_authkit.Controllers.TwoFactor.{
  CodeDraws, challenge, challenge_user, challenge_answer, challenge_body, verify_challenge,
  pending_user, wants_remember, write_audit_of,
}

found-Reads :
    (id : ℕ) (db : Db)
    → Reads (λ u. select_id id db.tables.users ≡ some u) db.tables (get_by_id id db)
unfolding get_by_id find_by_id
found-Reads id db =
    Reads-then _ (query-Reads (λ t. select_id id t.users) db) λ row fs e. row_case row fs e
  where
    row_case :
        (row : Option User) (fs : List (Option Str))
        → row ≡ select_id id db.tables.users
        → Reads
            (λ u. select_id id db.tables.users ≡ some u)
            db.tables
            (or_fail row not_found (record { tables = db.tables; faults = fs }))
    row_case none fs e = fail-Reads
    row_case (some u) fs e = done-Reads (sym e)

module _ {S : Type 0} (ext : External) (p : Platform S) (laws : IsLawful p) (i : SignIn)
    (req : Request) (l : Draws) (d : CodeDraws) (body : TwoFactorChallengeRequest) where
  -- The service has accepted the code, or the recovery code where there is no code, on these tables.
  abbrev pub Passes : (id : ℕ) → Tables → Type 0
  Passes id t =
      (before : Db) × (after : Db) × (before.tables ≡ t)
      × ((TwoFactor.verify_login_code ext d.now id body.code before ≡ done true after)
          ⊎ (TwoFactor.consume_recovery_code ext d.nonce d.now id body.recovery_code before
              ≡ done true after))

  -- Whom the challenge signs in: the user who is pending, by an accepted code.
  abbrev pub Challenged : Context S → Context S → Type 0
  Challenged c c' =
      (u : User) × (select_id (pending_user ext p i c) c.db.tables.users ≡ some u)
      × Passes (pending_user ext p i c) c.db.tables
      × SignedAs p laws i.guard u c'

  abbrev pub Settles : Context S → Answer → Context S → Type 0
  Settles c a c' = (session_user p i.guard c' ≡ session_user p i.guard c) ⊎ Challenged c c'

  abbrev Verdict : (id : ℕ) → Tables → Option (Result Bool) → Type 0
  Verdict id t none = Unit
  Verdict id t (some (err e)) = Unit
  Verdict id t (some (ok false)) = Unit
  Verdict id t (some (ok true)) = Passes id t

  by_code :
      (id : ℕ) (before after : Db) (r : Result Bool)
      → Returned (TwoFactor.verify_login_code ext d.now id body.code before) r after
      → Verdict id before.tables (some r)
  by_code id before after (err e) h = tt
  by_code id before after (ok false) h = tt
  by_code id before after (ok true) h = (before, after, refl, inl h)

  by_recovery_code :
      (id : ℕ) (before after : Db) (r : Result Bool)
      → Returned
          (TwoFactor.consume_recovery_code ext d.nonce d.now id body.recovery_code before)
          r
          after
      → Verdict id before.tables (some r)
  by_recovery_code id before after (err e) h = tt
  by_recovery_code id before after (ok false) h = tt
  by_recovery_code id before after (ok true) h = (before, after, refl, inr h)

  verify_challenge-Verdict :
      (id : ℕ) (c : Context S)
      → Gives
          (λ r c'. (c'.session ≡ c.session) × Verdict id c.db.tables r)
          (verify_challenge ext p i d id body c)
  unfolding verify_challenge
  verify_challenge-Verdict id c =
      choose-Gives _ _ _ c
        (λ _.
          follow-Gives _ (attempt-Returned _ c)
            (λ r c' h. gives_now (h.0, by_code id c.db c'.db r h.1)))
        λ _.
          choose-Gives _ _ _ c
            (λ _.
              follow-Gives _ (attempt-Returned _ c)
                (λ r c' h. gives_now (h.0, by_recovery_code id c.db c'.db r h.1)))
            λ _. gives_now (refl, tt)

  abbrev IsUser : Option Str → Option S → Type 0
  IsUser x o = signed_in p i.guard o ≡ x

  module _ (c : Context S) (u : User)
      (found : select_id (pending_user ext p i c) c.db.tables.users ≡ some u) where
    answer-Settles :
        (verdict : Option (Result Bool)) (c' : Context S)
        → c'.session ≡ c.session
        → Verdict (pending_user ext p i c) c.db.tables verdict
        → Gives (Settles c) (challenge_answer ext p i req l (pending_user ext p i c) u verdict c')
    unfolding challenge_answer write_audit_of
    answer-Settles none c' same v = gives_now (inl (ap (signed_in p i.guard) same))
    answer-Settles (some (err e)) c' same v = gives_now (inl (ap (signed_in p i.guard) same))
    answer-Settles (some (ok false)) c' same v =
        Gives-imp _
          (follow-Keeps (IsUser (session_user p i.guard c)) _ _
            (write_audit-Keeps (IsUser (session_user p i.guard c)) _ _ _)
            (λ _. give-Keeps (IsUser (session_user p i.guard c)) _) c'
            (ap (signed_in p i.guard) same))
          (λ a c2 h. inl h)
    answer-Settles (some (ok true)) c' same v =
        Gives-imp _ (complete_login-Signed p laws ext i req l (wants_remember ext p i c') u c')
          λ a c2 h. elim h [
            | inl signed ↦ inr (u, found, v, signed.1)
            | inr refused ↦ inl (ap (signed_in p i.guard) (refused.1 ∙ same))
          ]

    user-Settles :
        (c1 : Context S)
        → c1.session ≡ c.session
        → c1.db.tables ≡ c.db.tables
        → Gives (Settles c) (challenge_user ext p i body req l d (pending_user ext p i c) (ok u) c1)
    unfolding challenge_user
    user-Settles c1 same rest =
        follow-Gives _ (verify_challenge-Verdict (pending_user ext p i c) c1) λ verdict c2 h.
          answer-Settles verdict c2 (h.0 ∙ same)
            (subst (λ (t : Tables). Verdict (pending_user ext p i c) t verdict) rest h.1)

  found-Ensures :
      (c : Context S) (o : Outcome User)
      → Reads (λ u. select_id (pending_user ext p i c) c.db.tables.users ≡ some u) c.db.tables o
      → Ensures
          (λ u t.
            (select_id (pending_user ext p i c) c.db.tables.users ≡ some u) × (t ≡ c.db.tables))
          (λ _. Unit {0})
          o
  found-Ensures c (done u db) r = record { holds = (r.reads.1, r.reads.0) }
  found-Ensures c (fail e db) r = record { holds = tt }

  loaded-Settles :
      (c c2 : Context S) (r : Result User)
      → c2.session ≡ c.session
      → Answered
          (λ u t.
            (select_id (pending_user ext p i c) c.db.tables.users ≡ some u) × (t ≡ c.db.tables))
          (λ _. Unit {0})
          r
          c2.db.tables
      → Gives (Settles c) (challenge_user ext p i body req l d (pending_user ext p i c) r c2)
  loaded-Settles c c2 (err e) same h =
      unfold challenge_user in gives_now (inl (ap (signed_in p i.guard) same))
  loaded-Settles c c2 (ok u) same h = user-Settles c u h.0 c2 same h.1

  limited-Settles :
      (c : Context S) (answered : Option Answer) (c1 : Context S)
      → (c1.session ≡ c.session) × (c1.db ≡ c.db)
      → Gives (Settles c) (
          unless_answered
            (challenge_body ext p i (some body) req l d (pending_user ext p i c))
            answered
            c1)
  limited-Settles c (some a) c1 kept = gives_now (inl (ap (signed_in p i.guard) kept.0))
  limited-Settles c none c1 kept =
      follow-Gives _
        (attempt-Gives (get_by_id (pending_user ext p i c)) c1 (
          subst
            (λ (db : Db).
              Ensures
                (λ u t.
                  (select_id (pending_user ext p i c) c.db.tables.users ≡ some u)
                  × (t ≡ c.db.tables))
                (λ _. Unit {0}) (get_by_id (pending_user ext p i c) db))
            (sym kept.1) (found-Ensures c _ (found-Reads (pending_user ext p i c) c.db))))
        λ r c2 h. loaded-Settles c c2 r (h.0 ∙ kept.0) h.1

  -- After Challenge the user of the session is the one that it had before, or the pending user,
  -- on whose account the service has accepted the code or the recovery code.
  pub challenge-Challenged :
      (limit : Option RateLimitResult) (c : Context S)
      → Gives (Settles c) (challenge ext p i (some body) limit req l d c)
  unfolding challenge follow
  challenge-Challenged limit c =
      choose-Gives (pending_user ext p i c == 0) _ _ c (λ _. gives_now (inl refl))
        λ _.
          follow-Gives _ (enforce_rate_limit-Keeps c limit)
            λ answered c1 kept. limited-Settles c answered c1 kept
