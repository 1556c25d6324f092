-- ===== src/Helpers/Marked.antt =====
-- helpers/impersonation.go: the marker of an impersonation in the session, and what leaves it alone.
use goravel_authkit.Base.{◌≡◌, refl, ap, ◌∙◌, false, Option, none, some, if◌then◌else◌, ◌&&◌}
use goravel_authkit.Text.{Str, lit, str_eq}
use goravel_authkit.Text.Laws.{str_eq_refl}
use goravel_authkit.Http.{Context, Platform, ImpersonatorMarker, stored}
use goravel_authkit.Http.Laws.{IsLawful}
use goravel_authkit.Http.Rules.{Gives, with_session-Gives}
use goravel_authkit.Helpers.{
  Entry, impersonator, key, impersonator_key, read_marker, set_impersonator,
}
use goravel_authkit.Helpers.Keys.{same}
use goravel_authkit.Helpers.Signed.{get-put_key, get-forget_key, get-login_key, get-logout_key}

abbrev pub marker_in :
    {S : Type 0} → Platform S → (guard : Str) → Option S → Option ImpersonatorMarker
marker_in p guard o = read_marker p (stored p (impersonator_key guard) o)

module _ {S : Type 0} (p : Platform S) (laws : IsLawful p) (guard : Str) where
  pub put-marker :
      (e : Entry) (g v : Str) (s : S)
      → same e impersonator ≡ false
      → marker_in p guard (some (p.put (key e g) v s)) ≡ marker_in p guard (some s)
  put-marker e g v s other = ap (read_marker p) (
      get-put_key p laws e impersonator g guard v s
      ∙ ap (λ b. if b && str_eq g guard then some v else p.get (impersonator_key guard) s) other)

  pub forget-marker :
      (e : Entry) (g : Str) (s : S)
      → same e impersonator ≡ false
      → marker_in p guard (some (p.forget (key e g) s)) ≡ marker_in p guard (some s)
  forget-marker e g s other = ap (read_marker p) (
      get-forget_key p laws e impersonator g guard s
      ∙ ap (λ b. if b && str_eq g guard then none else p.get (impersonator_key guard) s) other)

  pub forget-marker_self :
      (s : S) → marker_in p guard (some (p.forget (impersonator_key guard) s)) ≡ none
  forget-marker_self s = ap (read_marker p) (
      get-forget_key p laws impersonator impersonator guard guard s
      ∙ ap (λ b. if b then none else p.get (impersonator_key guard) s) (str_eq_refl guard))

  pub login-marker :
      (g id : Str) (s t : S)
      → p.guard_login g id s ≡ some t
      → marker_in p guard (some t) ≡ marker_in p guard (some s)
  login-marker g id s t l = ap (read_marker p) (get-login_key p laws impersonator g guard id s t l)

  pub logout-marker :
      (g : Str) (s : S) → marker_in p guard (some (p.guard_logout g s)) ≡ marker_in p guard (some s)
  logout-marker g s = ap (read_marker p) (get-logout_key p laws impersonator g guard s)

  pub regenerate-marker :
      (s t : S) → p.regenerate s ≡ some t → marker_in p guard (some t) ≡ marker_in p guard (some s)
  regenerate-marker s t r = ap (read_marker p) (laws.get-regenerate (impersonator_key guard) s t r)

  -- A marker that is written is read.
  marked :
      (m : ImpersonatorMarker) (text : Str) (s : S)
      → str_eq text (lit "") ≡ false
      → p.unmarshal_marker text ≡ some m
      → marker_in p guard (some (p.put (impersonator_key guard) text s)) ≡ some m
  marked m text s full read =
      ap (read_marker p) (
        get-put_key p laws impersonator impersonator guard guard text s
        ∙ ap (λ b. if b then some text else p.get (impersonator_key guard) s) (str_eq_refl guard))
      ∙ rw (full, read) refl

  pub set_impersonator-Gives :
      (R Before : Option S → Type 0) (m : ImpersonatorMarker) (c : Context S)
      → ((text : Str) (s : S)
          → Before (some s)
          → marker_in p guard (some (p.put (impersonator_key guard) text s)) ≡ some m
          → R (some (p.put (impersonator_key guard) text s)))
      → (Before none → R none)
      → Before c.session
      → Gives (λ _ c'. R c'.session) (set_impersonator p guard m c)
  unfolding set_impersonator
  set_impersonator-Gives R Before m c write none_kept h =
      let (text, wrote, full, read) = laws.marker_kept m in
      rw wrote (
        with_session-Gives R Before _ c (λ s b. write text s b (marked m text s full read))
          none_kept h)
