-- ===== src/Routes/Closed.antt =====
-- routes/routes.go: proofs about what stands before the handlers.
pub mod Groups
use goravel_authkit.Base.{
  ℕ, ◌≡◌, refl, ap, sym, ◌∙◌, Bool, true, false, not, ◌&&◌, ◌||◌, List, [], ◌∷◌, ◌++◌, any, All,
  if◌then◌else◌, is_empty, Bool-cases, inl, inr, arith,
}
use goravel_authkit.Text.{Str, lit, str_eq}
use goravel_authkit.Text.Laws.{str_eq_refl}
use goravel_authkit.Routes.{Options, effective, management_roles}
use goravel_authkit.Routes.Table.{
  Layer, Handler, Route, when, under, inside, unless_sensitive, limited, managed, public_routes,
  account_routes, audit_routes, session_routes, two_factor_routes, token_routes,
  impersonation_routes, user_routes, guarded_routes, guarded, outer, table, register,
}

-- Anybody may ask for these.
abbrev pub is_public : Handler → Bool
is_public Handler.show_meta = true
is_public Handler.login = true
is_public Handler.challenge = true
is_public _ = false

-- These are for administrators.
abbrev pub is_managing : Handler → Bool
is_managing Handler.admin_logins = true
is_managing Handler.list_users = true
is_managing Handler.store_user = true
is_managing Handler.show_user = true
is_managing Handler.update_user = true
is_managing Handler.destroy_user = true
is_managing Handler.set_user_password = true
is_managing _ = false

abbrev changes_credentials : Handler → Bool
changes_credentials Handler.change_password = true
changes_credentials Handler.list_tokens = true
changes_credentials Handler.store_token = true
changes_credentials Handler.destroy_tokens = true
changes_credentials Handler.destroy_token = true
changes_credentials _ = false

-- What the host may close to switched sessions: the password, API tokens, administration. The
-- two-factor routes are not among them.
abbrev pub is_sensitive : Handler → Bool
is_sensitive h = changes_credentials h || is_managing h

abbrev pub is_origin_check : Layer → Bool
is_origin_check (Layer.verify_origin trusted) = true
is_origin_check _ = false

abbrev pub is_authentication : (guard : Str) → Layer → Bool
is_authentication guard (Layer.authenticated g) = str_eq g guard
is_authentication guard _ = false

abbrev pub is_role_check : (guard : Str) → Layer → Bool
is_role_check guard (Layer.require_role g roles) = str_eq g guard && not (is_empty roles)
is_role_check guard _ = false

abbrev pub is_rejection : (guard : Str) → Layer → Bool
is_rejection guard (Layer.reject_while_impersonating g) = str_eq g guard
is_rejection guard _ = false

-- What follows the first layer that satisfies the test.
abbrev after : (Layer → Bool) → List Layer → List Layer
after test [] = []
after test (l ∷ ls) = if test l then ls else after test ls

-- A handler is behind the check of the origin, if that is enabled; behind the guard of sessions,
-- unless it is public; behind a check of roles that comes after that guard and names some role, if
-- it manages; and not open to switched sessions, if it is sensitive and the host does not allow it.
abbrev pub Closed : Options → Handler → List Layer → Type 0
Closed o h layers =
    ((not o.enable_csrf || any is_origin_check layers) ≡ true)
    × ((is_public h || any (is_authentication o.guard) layers) ≡ true)
    × ((not (is_managing h)
          || any (is_role_check o.guard) (after (is_authentication o.guard) layers))
        ≡ true)
    × ((not (
            is_sensitive h
            && (o.enable_impersonation && not o.impersonation_allow_sensitive_actions))
          || any (is_rejection o.guard) layers)
        ≡ true)

pub any-append :
    (test : Layer → Bool) (xs ys : List Layer) → any test (xs ++ ys) ≡ (any test xs || any test ys)
any-append test [] ys = refl
any-append test (x ∷ xs) ys = elim (Bool-cases (test x)) [
  | inl t ↦ rw t refl
  | inr f ↦ rw f (any-append test xs ys)
]

pub or_right : (a b : Bool) → b ≡ true → (a || b) ≡ true
or_right true b h = refl
or_right false b h = h

pub any_right :
    (test : Layer → Bool) (xs ys : List Layer) → any test ys ≡ true → any test (xs ++ ys) ≡ true
any_right test xs ys h = any-append test xs ys ∙ or_right (any test xs) (any test ys) h

management_roles_some : (o : Options) → is_empty (management_roles o) ≡ false
unfolding management_roles
management_roles_some o = elim (Bool-cases (is_empty o.user_management_roles)) [
  | inl e ↦ rw e refl
  | inr s ↦ rw s s
]

module _ (o : Options) where
  abbrev pub shut : Bool
  shut = o.enable_impersonation && not o.impersonation_allow_sensitive_actions

  pub checked_origin :
      (ls : List Layer) → (not o.enable_csrf || any is_origin_check (outer o ++ ls)) ≡ true
  checked_origin ls = elim (Bool-cases o.enable_csrf) [ inl t ↦ rw t refl | inr f ↦ rw f refl ]

  is_guarded :
      (ls : List Layer) → any (is_authentication o.guard) (outer o ++ (guarded o ++ ls)) ≡ true
  is_guarded ls = elim (Bool-cases o.enable_csrf) [
    | inl t ↦ elim (Bool-cases o.enable_remember_me) [
      | inl r ↦ rw (t, r, str_eq_refl o.guard) refl
      | inr r ↦ rw (t, r, str_eq_refl o.guard) refl
    ]
    | inr t ↦ elim (Bool-cases o.enable_remember_me) [
      | inl r ↦ rw (t, r, str_eq_refl o.guard) refl
      | inr r ↦ rw (t, r, str_eq_refl o.guard) refl
    ]
  ]

  after_guard :
      (ls : List Layer)
      → after (is_authentication o.guard) (outer o ++ (guarded o ++ ls))
        ≡ when o.enable_sessions (Layer.track_session o.guard ∷ []) ++ ls
  after_guard ls = elim (Bool-cases o.enable_csrf) [
    | inl t ↦ elim (Bool-cases o.enable_remember_me) [
      | inl r ↦ rw (t, r, str_eq_refl o.guard) refl
      | inr r ↦ rw (t, r, str_eq_refl o.guard) refl
    ]
    | inr t ↦ elim (Bool-cases o.enable_remember_me) [
      | inl r ↦ rw (t, r, str_eq_refl o.guard) refl
      | inr r ↦ rw (t, r, str_eq_refl o.guard) refl
    ]
  ]

  pub managed_role : any (is_role_check o.guard) (managed o) ≡ true
  managed_role =
      any_right (is_role_check o.guard) (unless_sensitive o)
        (Layer.require_role o.guard (management_roles o) ∷ [])
        (rw (str_eq_refl o.guard, management_roles_some o) refl)

  role_checked :
      (ls : List Layer)
      → any (is_role_check o.guard) ls ≡ true
      → any
          (is_role_check o.guard)
          (after (is_authentication o.guard) (outer o ++ (guarded o ++ ls)))
        ≡ true
  role_checked ls h =
      ap (any (is_role_check o.guard)) (after_guard ls)
      ∙ any_right (is_role_check o.guard)
          (when o.enable_sessions (Layer.track_session o.guard ∷ [])) ls h

  pub refuses :
      (ls : List Layer) → (not shut || any (is_rejection o.guard) (unless_sensitive o ++ ls)) ≡ true
  refuses ls = elim (Bool-cases shut) [
    | inl t ↦ rw (t, str_eq_refl o.guard) refl
    | inr f ↦ rw f refl
  ]

  implied :
      (b : Bool) (x y : Bool) → (x ≡ true → y ≡ true) → (not b || x) ≡ true → (not b || y) ≡ true
  implied true x y f h = f h
  implied false x y f h = refl

  -- A handler whose own layers check the role and the switched session, where it needs that.
  pub Closed-at :
      (h : Handler) (ls : List Layer)
      → (not (is_managing h) || any (is_role_check o.guard) ls) ≡ true
      → (not (is_sensitive h && shut) || any (is_rejection o.guard) ls) ≡ true
      → Closed o h (outer o ++ (guarded o ++ ls))
  Closed-at h ls role reject = (
    checked_origin (guarded o ++ ls),
    or_right (is_public h) _ (is_guarded ls),
    implied (is_managing h) _ _ (role_checked ls) role,
    implied (is_sensitive h && shut) _ _
        (λ r.
          any_right (is_rejection o.guard) (outer o) _
            (any_right (is_rejection o.guard) (guarded o) ls r))
        reject,
  )

  abbrev pub Guarded : Route → Type 0
  Guarded r = Closed o r.handler (outer o ++ (guarded o ++ r.layers))
