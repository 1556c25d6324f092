-- ===== src/Controllers/Completed.antt =====
-- http/controllers/auth.go: completeLogin over the session, and what it leaves there.
use goravel_authkit.Base.{
  ℕ, ◌≡◌, refl, ap, ◌∙◌, Bool, true, false, Option, none, some, ◌⊎◌, inl, inr, if◌then◌else◌,
}
use goravel_authkit.Text.{Str}
use goravel_authkit.Text.Laws.{str_eq_refl}
use goravel_authkit.Models.{User}
use goravel_authkit.External.{External}
use goravel_authkit.Http.{Context, Platform, Request, signed_in, guard_login, log_in_to, replaced}
use goravel_authkit.Http.Laws.{IsLawful}
use goravel_authkit.Http.Rules.{Gives, follow-Gives, choose-Gives, gives_now, Gives-imp}
use goravel_authkit.Helpers.{
  two_factor_user_id, remember_intent, session_token, password_changed_at_key,
}
use goravel_authkit.Helpers.Signed.{Signed, put-Signed, forget-Signed, stamp-Signed}
use goravel_authkit.Responses.{json, account, internal_error, new_user_response}
use goravel_authkit.Controllers.{SignIn, Draws, settled, complete_login}
use goravel_authkit.Controllers.Establish.{establish-Gives, Tracks}

module _ {S : Type 0} (p : Platform S) (laws : IsLawful p) where
  -- What the login at the guard did, by its answer.
  abbrev pub LoginResult : (g id : Str) → Context S → Bool → Context S → Type 0
  LoginResult g id c b c' =
      (c'.db ≡ c.db)
      × (((b ≡ true) × (signed_in p g c'.session ≡ some id))
          ⊎ ((b ≡ false) × (c'.session ≡ c.session)))

  replaced-Gives :
      (g id : Str) (c : Context S) (o : Option S)
      → ((t : S) → o ≡ some t → p.guard_id g t ≡ some id)
      → Gives (LoginResult g id c) (replaced p c o)
  replaced-Gives g id c none h = gives_now (refl, inr (refl, refl))
  replaced-Gives g id c (some t) h = gives_now (refl, inl (refl, h t refl))

  pub signed_of :
      (g id : Str) (b : Bool) (c c' : Context S)
      → LoginResult g id c b c'
      → b ≡ true
      → signed_in p g c'.session ≡ some id
  signed_of g id b c c' (same, inl h) e = h.1
  signed_of g id b c c' (same, inr h) e = absurd (cc)

  pub refused_of :
      (g id : Str) (b : Bool) (c c' : Context S)
      → LoginResult g id c b c'
      → b ≡ false
      → c'.session ≡ c.session
  refused_of g id b c c' (same, inl h) e = absurd (cc)
  refused_of g id b c c' (same, inr h) e = h.1

  pub logged_in_id :
      (g id : Str) (o : Option S) (t : S) → log_in_to p g id o ≡ some t → p.guard_id g t ≡ some id
  logged_in_id g id none t e = absurd (cc)
  logged_in_id g id (some s) t e =
      laws.id-login g g id s t e ∙ ap (λ b. if b then some id else p.guard_id g s) (str_eq_refl g)

  pub guard_login-Gives :
      (g : Str) (user : ℕ) (c : Context S)
      → Gives (LoginResult g (p.uuid_string user) c) (guard_login p g user c)
  unfolding guard_login
  guard_login-Gives g user c =
      replaced-Gives g (p.uuid_string user) c (log_in_to p g (p.uuid_string user) c.session)
        (logged_in_id g (p.uuid_string user) c.session)

  pub Tracks-Signed : (ext : External) (g id stamp : Str) → Tracks (Signed p g id stamp) ext p g
  Tracks-Signed ext g id stamp v s h = put-Signed p laws session_token g id stamp v s refl h

  -- The session of the guard is that of the account, with the stamp of its password.
  abbrev pub SignedAs : (guard : Str) → User → Context S → Type 0
  SignedAs guard u c =
      Signed p guard (p.uuid_string u.id) (p.format_stamp u.password_changed_at) c.session

  module _ (ext : External) (i : SignIn) (req : Request) (d : Draws) (wanted : Bool)
      (u : User) where
    settled-Signed :
        (s : S)
        → p.guard_id i.guard s ≡ some (p.uuid_string u.id)
        → Signed p i.guard
            (p.uuid_string u.id)
            (p.format_stamp u.password_changed_at)
            (some (settled ext p i.guard u s))
    settled-Signed s h =
        let id = p.uuid_string u.id in
        let stamp = p.format_stamp u.password_changed_at in
        let marked = p.put (password_changed_at_key i.guard) stamp s in
        forget-Signed p laws remember_intent i.guard id stamp _ refl (
          forget-Signed p laws two_factor_user_id i.guard id stamp marked refl
            (stamp-Signed p laws i.guard id stamp s h))

    -- Either the user is signed in, or the guard has refused and nothing has changed.
    pub complete_login-Signed :
        (c : Context S)
        → Gives
            (λ a c'.
              ((a ≡ json 200 (account (new_user_response p u))) × SignedAs i.guard u c')
              ⊎ ((a ≡ internal_error) × (c'.session ≡ c.session)))
            (complete_login ext p i req d wanted u c)
    unfolding complete_login
    complete_login-Signed c = follow-Gives _ (guard_login-Gives i.guard u.id c) λ b c1 logged.
        choose-Gives b _ _ c1
          (λ yes_b.
            Gives-imp _
              (establish-Gives (λ o. signed_in p i.guard o ≡ some (p.uuid_string u.id))
                (Signed p i.guard (p.uuid_string u.id) (p.format_stamp u.password_changed_at)) ext p
                i req d wanted u c1 (λ s t r h. laws.id-regenerate i.guard s t r ∙ h) settled-Signed
                (λ none_in. absurd (cc)) (Tracks-Signed ext i.guard _ _)
                (signed_of i.guard (p.uuid_string u.id) b c c1 logged yes_b))
              (λ a c2 h. inl h))
          (λ no_b.
            gives_now (inr (refl, refused_of i.guard (p.uuid_string u.id) b c c1 logged no_b)))
