-- ===== src/Controllers/Impersonation/Switch.antt =====
-- http/controllers/impersonation.go: proofs about Start, who becomes whom.
use goravel_authkit.Base.{
  ℕ, ◌≡◌, refl, ap, sym, ◌∙◌, false, ◌&&◌, List, Option, none, some, ◌⊎◌, inl, inr, ◌==◌,
  if◌then◌else◌, is_some,
}
use goravel_authkit.Text.{Str, str_eq}
use goravel_authkit.Errors.{Result, ok, err}
use goravel_authkit.Models.{User, is_disabled}
use goravel_authkit.Store.{Db, Tables, Outcome, done, fail}
use goravel_authkit.Store.Laws.{Ensures, branch-Ensures}
use goravel_authkit.Store.Calls.{query-Ensures}
use goravel_authkit.Http.{Context, Platform, Request, ImpersonatorMarker, follow, signed_in}
use goravel_authkit.Http.Laws.{IsLawful}
use goravel_authkit.Http.Rules.{
  Gives, follow-Gives, choose-Gives, attempt-Gives, Answered, with_session-Gives, regenerate-Keeps,
  gives_now, Gives-imp,
}
use goravel_authkit.Helpers.{password_changed_at, impersonator, impersonator_of}
use goravel_authkit.Helpers.Signed.{Signed, stamp-Signed, id-put_key}
use goravel_authkit.Helpers.Marked.{
  marker_in, put-marker, regenerate-marker, set_impersonator-Gives,
}
use goravel_authkit.Responses.{Answer, ImpersonateRequest}
use goravel_authkit.Repositories.Users.{select_id, find_by_id}
use goravel_authkit.Services.Impersonation.{authorize}
use goravel_authkit.Controllers.{Stamp}
use goravel_authkit.Controllers.Establish.{write_audit-Keeps}
use goravel_authkit.Controllers.Completed.{guard_login-Gives, signed_of, refused_of}
use goravel_authkit.Controllers.Impersonation.{
  ImpersonationController, find_in, write_audit_between, marker_of, stamp_session, principal,
  switch_to, permitted, target_found, start_at, actor_found, start,
}

is_none : (o : Option ImpersonatorMarker) → is_some o ≡ false → o ≡ none
is_none none h = refl
is_none (some m) h = absurd (cc)

module _ {S : Type 0} (p : Platform S) (laws : IsLawful p) (ic : ImpersonationController) where
  -- The accounts of a guard.
  abbrev pub accounts_of : (guard : Str) → Tables → List User
  accounts_of guard t = if str_eq guard ic.guard then t.users else ic.others guard

  pub find_in-Ensures :
      (guard : Str) (id : ℕ) (db : Db)
      → Ensures
          (λ row t. (select_id id (accounts_of guard db.tables) ≡ row) × (t ≡ db.tables))
          (λ t. t ≡ db.tables)
          (find_in p ic guard id db)
  unfolding find_in find_by_id
  find_in-Ensures guard id db =
      branch-Ensures (str_eq guard ic.guard) _ _ db
        (λ own.
          query-Ensures (λ t. select_id id t.users) db refl
            (ap (λ b. select_id id (if b then db.tables.users else ic.others guard)) own, refl))
        (λ other.
          query-Ensures (λ _. select_id id (ic.others guard)) db refl
            (ap (λ b. select_id id (if b then db.tables.users else ic.others guard)) other, refl))

  -- The session of the guard is the target's, and says who the actor is.
  abbrev pub SwitchedTo : (guard : Str) → (actor target : User) → Option S → Type 0
  SwitchedTo guard actor target o =
      Signed p guard (p.uuid_string target.id) (p.format_stamp target.password_changed_at) o
      × (marker_in p guard o ≡ some (marker_of p ic guard actor))

  module _ (req : Request) (s : Stamp) (guard : Str) (actor target : User) where
    abbrev Half : Option S → Type 0
    Half o =
        (signed_in p guard o ≡ some (p.uuid_string target.id))
        × (marker_in p guard o ≡ some (marker_of p ic guard actor))

    switch_to-SwitchedTo :
        (c : Context S)
        → signed_in p guard c.session ≡ some (p.uuid_string target.id)
        → Gives
            (λ _ c'. SwitchedTo guard actor target c'.session)
            (switch_to p ic req s guard actor target c)
    unfolding switch_to write_audit_between
    switch_to-SwitchedTo c h =
        follow-Gives _
          (set_impersonator-Gives p laws guard Half
            (λ o. signed_in p guard o ≡ some (p.uuid_string target.id)) (marker_of p ic guard actor)
            c (λ text x k m. (id-put_key p laws impersonator guard guard text x ∙ k, m))
            (λ k. absurd (cc)) h)
          λ _ c1 h1.
            follow-Gives _
              (regenerate-Keeps Half p
                (λ x t r k. (
                  laws.id-regenerate guard x t r ∙ k.0,
                  regenerate-marker p laws guard x t r ∙ k.1,
                ))
                c1 h1)
              λ _ c2 h2.
                follow-Gives _
                  (with_session-Gives (SwitchedTo guard actor target) Half
                    (stamp_session p ic guard target) c2
                    (λ x k. (
                      stamp-Signed p laws guard _ _ x k.0,
                      put-marker p laws guard password_changed_at guard _ x refl ∙ k.1,
                    ))
                    (λ k. absurd (cc (k.0))) h2)
                  λ _ c3 h3.
                    follow-Gives _ (write_audit-Keeps (SwitchedTo guard actor target) _ _ _ c3 h3)
                      λ _ c4 h4. gives_now h4

  -- Whom Start puts in whose place: a target that is not locked and that the gate allows, by an
  -- actor of this guard who is another and whose session is not a switched one.
  abbrev pub Allowed : Context S → Context S → Type 0
  Allowed c c' =
      (guard : Str) × (id : ℕ) × (actor : User) × (target : User) × (select_id c.auth_user_id
          (accounts_of ic.guard c.db.tables)
        ≡ some actor)
      × (select_id id (accounts_of guard c.db.tables) ≡ some target)
      × (is_disabled target ≡ false)
      × (authorize ic.gate (principal ic.guard actor) guard (principal guard target) ≡ ok tt)
      × ((str_eq guard ic.guard && id == c.auth_user_id) ≡ false)
      × (marker_in p guard c.session ≡ none)
      × SwitchedTo guard actor target c'.session

  abbrev pub Switches : Context S → Answer → Context S → Type 0
  Switches c a c' = (c'.session ≡ c.session) ⊎ Allowed c c'

  module _ (req : Request) (s : Stamp) (c : Context S) (guard : Str) (id : ℕ) (actor : User)
      (acting : select_id c.auth_user_id (accounts_of ic.guard c.db.tables) ≡ some actor)
      (another : (str_eq guard ic.guard && id == c.auth_user_id) ≡ false)
      (plain : marker_in p guard c.session ≡ none) where
    permitted-Switches :
        (target : User) (r : Result (Unit {0})) (c1 : Context S)
        → select_id id (accounts_of guard c.db.tables) ≡ some target
        → is_disabled target ≡ false
        → authorize ic.gate (principal ic.guard actor) guard (principal guard target) ≡ r
        → c1.session ≡ c.session
        → Gives (Switches c) (permitted p ic req s guard actor target r c1)
    permitted-Switches target (err e) c1 found live gate same = gives_now (inl same)
    permitted-Switches target (ok agreed) c1 found live gate same =
        follow-Gives _ (guard_login-Gives p laws guard target.id c1) λ b c2 logged.
          choose-Gives b _ _ c2
            (λ yes_b.
              Gives-imp _
                (switch_to-SwitchedTo req s guard actor target c2
                  (signed_of p laws guard (p.uuid_string target.id) b c1 c2 logged yes_b))
                (λ a c3 h.
                  inr (guard, id, actor, target, acting, found, live, gate, another, plain, h)))
            (λ no_b.
              gives_now (
                inl (refused_of p laws guard (p.uuid_string target.id) b c1 c2 logged no_b ∙ same)))

    target-Switches :
        (r : Result (Option User)) (c1 : Context S)
        → c1.session ≡ c.session
        → Answered
            (λ row t. select_id id (accounts_of guard c.db.tables) ≡ row)
            (λ _. Unit {0})
            r
            c1.db.tables
        → Gives (Switches c) (target_found p ic req s guard actor r c1)
    target-Switches (err e) c1 same found = gives_now (inl same)
    target-Switches (ok none) c1 same found = gives_now (inl same)
    target-Switches (ok (some target)) c1 same found =
        choose-Gives (is_disabled target) _ _ c1 (λ _. gives_now (inl same))
          λ live. permitted-Switches target _ c1 found live refl same

  found_later :
      (guard : Str) (id : ℕ) (t : Tables) (db : Db)
      → db.tables ≡ t
      → Ensures
          (λ row _. select_id id (accounts_of guard t) ≡ row)
          (λ _. Unit {0})
          (find_in p ic guard id db)
  found_later guard id t db e = weaker (find_in p ic guard id db) (find_in-Ensures guard id db)
    where
      weaker :
          (o : Outcome (Option User))
          → Ensures
              (λ row t'. (select_id id (accounts_of guard db.tables) ≡ row) × (t' ≡ db.tables))
              (λ t'. t' ≡ db.tables)
              o
          → Ensures (λ row _. select_id id (accounts_of guard t) ≡ row) (λ _. Unit {0}) o
      weaker (done row d) h = record {
        holds = ap (λ x. select_id id (accounts_of guard x)) (sym e) ∙ h.holds.0;
      }
      weaker (fail x d) h = record { holds = tt }

  module _ (req : Request) (s : Stamp) (c : Context S) where
    start_at-Switches :
        (guard : Str) (actor : User) (target : ℕ) (c1 : Context S)
        → select_id c.auth_user_id (accounts_of ic.guard c.db.tables) ≡ some actor
        → c1.session ≡ c.session
        → c1.db.tables ≡ c.db.tables
        → Gives (Switches c) (start_at p ic req s guard c.auth_user_id actor target c1)
    unfolding start_at impersonator_of
    start_at-Switches guard actor target c1 acting same rest =
        choose-Gives _ _ _ c1 (λ _. gives_now (inl same))
          λ _.
            choose-Gives _ _ _ c1 (λ _. gives_now (inl same))
              λ _.
                choose-Gives _ _ _ c1 (λ _. gives_now (inl same))
                  λ another.
                    choose-Gives _ _ _ c1 (λ _. gives_now (inl same))
                      λ plain.
                        follow-Gives _
                          (attempt-Gives (find_in p ic guard target) c1
                            (found_later guard target c.db.tables c1.db rest))
                          λ r c2 h.
                            target-Switches req s c guard target actor acting another
                              (ap (marker_in p guard) (sym same) ∙ is_none _ plain) r c2
                              (h.0 ∙ same) h.1

    actor-Switches :
        (body : Option ImpersonateRequest) (r : Result (Option User)) (c1 : Context S)
        → c1.session ≡ c.session
        → Answered
            (λ row t.
              (select_id c.auth_user_id (accounts_of ic.guard c.db.tables) ≡ row)
              × (t ≡ c.db.tables))
            (λ t. t ≡ c.db.tables)
            r
            c1.db.tables
        → Gives (Switches c) (actor_found p ic body req s c.auth_user_id r c1)
    actor-Switches body (err e) c1 same found = gives_now (inl same)
    actor-Switches none (ok none) c1 same found = gives_now (inl same)
    actor-Switches (some b) (ok none) c1 same found = gives_now (inl same)
    actor-Switches none (ok (some actor)) c1 same found = gives_now (inl same)
    actor-Switches (some b) (ok (some actor)) c1 same found =
        start_at-Switches _ actor _ c1 found.0 same found.1

    -- Start leaves the session as it is, or the actor and the target are accounts of their
    -- guards, the target is another and not disabled, the policy of the guard agrees, no
    -- impersonation was going on at that guard, and the session is the target's and names the
    -- actor.
    pub start-Switches :
        (body : Option ImpersonateRequest) → Gives (Switches c) (start p ic body req s c)
    unfolding start follow
    start-Switches body =
        choose-Gives (c.auth_user_id == 0) _ _ c (λ _. gives_now (inl refl))
          λ _.
            follow-Gives _
              (attempt-Gives (find_in p ic ic.guard c.auth_user_id) c
                (find_in-Ensures ic.guard c.auth_user_id c.db))
              λ r c1 h. actor-Switches body r c1 h.0 h.1
