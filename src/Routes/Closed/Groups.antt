-- ===== src/Routes/Closed/Groups.antt =====
-- routes/routes.go: proofs about each group of routes and the whole table.
use goravel_authkit.Base.{
  ◌≡◌, refl, Bool, true, false, not, ◌||◌, List, [], ◌∷◌, ◌++◌, any, All, Bool-cases, inl, inr,
}
use goravel_authkit.Text.{Str, lit}
use goravel_authkit.Text.Laws.{str_eq_refl}
use goravel_authkit.Routes.{Options, effective}
use goravel_authkit.Routes.Table.{
  Layer, Handler, Method, Route, route_at, when, under, inside, unless_sensitive, limited, managed,
  public_routes, account_routes, audit_routes, session_routes, two_factor_routes, token_routes,
  impersonation_routes, user_routes, guarded_routes, guarded, outer, table, register,
}
use goravel_authkit.Routes.Closed.{
  Closed, Closed-at, checked_origin, refuses, managed_role, any-append, Guarded, shut, is_rejection,
  is_role_check, is_public, is_managing, is_sensitive,
}

module _ (P : Route → Type 0) where
  All-append : (xs ys : List Route) → All P xs → All P ys → All P (xs ++ ys)
  All-append [] ys a b = b
  All-append (x ∷ xs) ys a b = (a.0, All-append xs ys a.1 b)

  All-when : (b : Bool) (xs : List Route) → All P xs → All P (when b xs)
  All-when true xs a = a
  All-when false xs a = tt

  All-under :
      (layers : List Layer) (rs : List Route)
      → All (λ r. P (record r { layers = layers ++ r.layers })) rs
      → All P (under layers rs)
  All-under layers [] a = tt
  All-under layers (r ∷ rs) a = (a.0, All-under layers rs a.1)

  All-inside :
      (prefix : Str) (rs : List Route)
      → All (λ r. P (record r { path = prefix ++ r.path })) rs
      → All P (inside prefix rs)
  All-inside prefix [] a = tt
  All-inside prefix (r ∷ rs) a = (a.0, All-inside prefix rs a.1)

any_left :
    (test : Layer → Bool) (xs ys : List Layer) → any test xs ≡ true → any test (xs ++ ys) ≡ true
any_left test xs ys h = rw (any-append test xs ys, h) refl

module _ (o : Options) where
  refuses_managed :
      (ls : List Layer) → (not (shut o) || any (is_rejection o.guard) (managed o ++ ls)) ≡ true
  refuses_managed ls = elim (Bool-cases (shut o)) [
    | inl t ↦ rw (t, str_eq_refl o.guard) refl
    | inr f ↦ rw f refl
  ]

  account_closed : All (Guarded o) (account_routes o)
  account_closed = (
    Closed-at o Handler.logout [] refl refl,
    (
      Closed-at o Handler.me [] refl refl,
      (
        Closed-at o Handler.update_profile [] refl refl,
        (
          Closed-at o Handler.change_password (unless_sensitive o ++ limited o) refl
              (refuses o (limited o)),
          tt,
        ),
      ),
    ),
  )

  audit_closed : All (Guarded o) (audit_routes o)
  audit_closed = (
    Closed-at o Handler.login_history [] refl refl,
    (Closed-at o Handler.admin_logins (managed o) (managed_role o) (refuses o _), tt),
  )

  session_closed : All (Guarded o) (session_routes o)
  session_closed = (
    Closed-at o Handler.list_sessions [] refl refl,
    (
      Closed-at o Handler.destroy_other_sessions [] refl refl,
      (Closed-at o Handler.destroy_session [] refl refl, tt),
    ),
  )

  two_factor_closed : All (Guarded o) (two_factor_routes o)
  two_factor_closed = (
    Closed-at o Handler.enable_two_factor [] refl refl,
    (
      Closed-at o Handler.confirm_two_factor [] refl refl,
      (
        Closed-at o Handler.disable_two_factor [] refl refl,
        (
          Closed-at o Handler.recovery_codes_status [] refl refl,
          (Closed-at o Handler.regenerate_recovery_codes [] refl refl, tt),
        ),
      ),
    ),
  )

  token_closed : All (Guarded o) (token_routes o)
  token_closed = (
    Closed-at o Handler.list_tokens (unless_sensitive o ++ []) refl (refuses o []),
    (
      Closed-at o Handler.store_token (unless_sensitive o ++ limited o) refl
          (refuses o (limited o)),
      (
        Closed-at o Handler.destroy_tokens (unless_sensitive o ++ []) refl (refuses o []),
        (Closed-at o Handler.destroy_token (unless_sensitive o ++ []) refl (refuses o []), tt),
      ),
    ),
  )

  impersonation_closed : All (Guarded o) (impersonation_routes o)
  impersonation_closed = (
    Closed-at o Handler.start_impersonation _ refl refl,
    (Closed-at o Handler.stop_impersonation [] refl refl, tt),
  )

  role_first : any (is_role_check o.guard) (managed o ++ []) ≡ true
  role_first = any_left (is_role_check o.guard) (managed o) [] (managed_role o)

  user_closed : All (Guarded o) (user_routes o)
  user_closed = (
    Closed-at o Handler.list_users (managed o ++ []) role_first (refuses_managed []),
    (
      Closed-at o Handler.store_user (managed o ++ []) role_first (refuses_managed []),
      (
        Closed-at o Handler.show_user (managed o ++ []) role_first (refuses_managed []),
        (
          Closed-at o Handler.update_user (managed o ++ []) role_first (refuses_managed []),
          (
            Closed-at o Handler.destroy_user (managed o ++ []) role_first (refuses_managed []),
            (
              Closed-at o Handler.set_user_password (managed o ++ []) role_first
                  (refuses_managed []),
              tt,
            ),
          ),
        ),
      ),
    ),
  )

  Guarded-closed : All (Guarded o) (guarded_routes o)
  Guarded-closed = All-append (Guarded o) (account_routes o) _ account_closed (
      All-append (Guarded o) (when o.enable_audit_log (audit_routes o)) _
        (All-when (Guarded o) o.enable_audit_log (audit_routes o) audit_closed)
        (All-append (Guarded o) (when o.enable_sessions (session_routes o)) _
          (All-when (Guarded o) o.enable_sessions (session_routes o) session_closed)
          (All-append (Guarded o) (when o.enable_two_factor (two_factor_routes o)) _
            (All-when (Guarded o) o.enable_two_factor (two_factor_routes o) two_factor_closed)
            (All-append (Guarded o) (when o.enable_api_tokens (token_routes o)) _
              (All-when (Guarded o) o.enable_api_tokens (token_routes o) token_closed)
              (All-append (Guarded o) (when o.enable_impersonation (impersonation_routes o)) _
                (All-when (Guarded o) o.enable_impersonation (impersonation_routes o)
                  impersonation_closed)
                (All-when (Guarded o) o.enable_user_management (user_routes o) user_closed))))))

  abbrev Within : Route → Type 0
  Within r = Closed o r.handler (outer o ++ r.layers)

  public_at :
      (h : Handler) (ls : List Layer)
      → is_public h ≡ true
      → is_managing h ≡ false
      → is_sensitive h ≡ false
      → Closed o h (outer o ++ ls)
  public_at h ls p m s = (checked_origin o ls, rw p refl, rw m refl, rw s refl)

  abbrev challenge_routes : List Route
  challenge_routes = route_at Method.post (lit "/two-factor-challenge") Handler.challenge [] ∷ []

  abbrev login_routes : List Route
  login_routes =
      route_at Method.post (lit "/login") Handler.login []
      ∷ when o.enable_two_factor challenge_routes

  abbrev Limited : Route → Type 0
  Limited r = Within (record r { layers = limited o ++ r.layers })

  login_closed : All Limited login_routes
  login_closed = (
    public_at Handler.login (limited o ++ []) refl refl refl,
    All-when Limited o.enable_two_factor challenge_routes
        (public_at Handler.challenge (limited o ++ []) refl refl refl, tt),
  )

  public_closed : All Within (public_routes o)
  public_closed = (
    public_at Handler.show_meta [] refl refl refl,
    All-under Within (limited o) login_routes login_closed,
  )

  abbrev ClosedRoute : Route → Type 0
  ClosedRoute r = Closed o r.handler r.layers

  table_closed : All ClosedRoute (table o)
  table_closed =
      let mounted = public_routes o ++ under (guarded o) (guarded_routes o) in
      All-inside ClosedRoute (o.prefix ++ lit "/auth") (under (outer o) mounted) (
        All-under ClosedRoute (outer o) mounted (
          All-append Within (public_routes o) (under (guarded o) (guarded_routes o)) public_closed
            (All-under Within (guarded o) (guarded_routes o) Guarded-closed)))

-- Whatever the options, each route that register mounts is behind the check of the origin, if
-- that is enabled; behind the guard of sessions, unless it is the meta route, the login or the
-- challenge; behind a check of some roles after that guard, if it is for administrators; and
-- closed to switched sessions, if it changes the password, handles API tokens or is for
-- administrators, where impersonation is enabled and the host does not allow it.
pub register-Closed :
    (o : Options) → All (λ r. Closed (effective o) r.handler r.layers) (register o)
unfolding register
register-Closed o = table_closed (effective o)
