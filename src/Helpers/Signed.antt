-- ===== src/Helpers/Signed.antt =====
-- helpers/session_keys.go: what a session says of who is signed in, and what leaves that alone.
use goravel_authkit.Base.{◌≡◌, ap, ◌∙◌, false, ◌++◌, Option, none, some, if◌then◌else◌, ◌&&◌}
use goravel_authkit.Text.{Str, str_eq}
use goravel_authkit.Text.Laws.{str_eq_refl}
use goravel_authkit.Http.{Platform, signed_in, stored}
use goravel_authkit.Http.Laws.{IsLawful}
use goravel_authkit.Helpers.{Entry, password_changed_at, key, suffix, password_changed_at_key}
use goravel_authkit.Helpers.Keys.{same, str_eq-key}

-- The session has a user and a stamp for the guard.
abbrev pub Signed : {S : Type 0} → Platform S → (guard id stamp : Str) → Option S → Type 0
Signed p guard id stamp o =
    (signed_in p guard o ≡ some id) × (stored p (password_changed_at_key guard) o ≡ some stamp)

module _ {S : Type 0} (p : Platform S) (laws : IsLawful p) where
  pub id-put_key :
      (e : Entry) (g h v : Str) (s : S) → p.guard_id g (p.put (key e h) v s) ≡ p.guard_id g s
  unfolding key
  id-put_key e g h v s = laws.id-put g (h ++ suffix e) v s

  pub id-forget_key :
      (e : Entry) (g h : Str) (s : S) → p.guard_id g (p.forget (key e h) s) ≡ p.guard_id g s
  unfolding key
  id-forget_key e g h s = laws.id-forget g (h ++ suffix e) s

  pub get-login_key :
      (e : Entry) (g h id : Str) (s t : S)
      → p.guard_login g id s ≡ some t
      → p.get (key e h) t ≡ p.get (key e h) s
  unfolding key
  get-login_key e g h id s t l = laws.get-login g (h ++ suffix e) id s t l

  pub get-logout_key :
      (e : Entry) (g h : Str) (s : S) → p.get (key e h) (p.guard_logout g s) ≡ p.get (key e h) s
  unfolding key
  get-logout_key e g h s = laws.get-logout g (h ++ suffix e) s

  -- One entry under another's write.
  pub get-put_key :
      (e f : Entry) (g h v : Str) (s : S)
      → p.get (key f h) (p.put (key e g) v s)
        ≡ (if same e f && str_eq g h then some v else p.get (key f h) s)
  get-put_key e f g h v s =
      laws.get-put (key e g) (key f h) v s
      ∙ ap (λ b. if b then some v else p.get (key f h) s) (str_eq-key e f g h)

  pub get-forget_key :
      (e f : Entry) (g h : Str) (s : S)
      → p.get (key f h) (p.forget (key e g) s)
        ≡ (if same e f && str_eq g h then none else p.get (key f h) s)
  get-forget_key e f g h s =
      laws.get-forget (key e g) (key f h) s
      ∙ ap (λ b. if b then none else p.get (key f h) s) (str_eq-key e f g h)

  pub put-Signed :
      (e : Entry) (g id stamp v : Str) (s : S)
      → same e password_changed_at ≡ false
      → Signed p g id stamp (some s)
      → Signed p g id stamp (some (p.put (key e g) v s))
  put-Signed e g id stamp v s other h = (
    id-put_key e g g v s ∙ h.0,
    get-put_key e password_changed_at g g v s
        ∙ (ap (λ b. if b && str_eq g g then some v else p.get (password_changed_at_key g) s) other
            ∙ h.1),
  )

  pub forget-Signed :
      (e : Entry) (g id stamp : Str) (s : S)
      → same e password_changed_at ≡ false
      → Signed p g id stamp (some s)
      → Signed p g id stamp (some (p.forget (key e g) s))
  forget-Signed e g id stamp s other h = (
    id-forget_key e g g s ∙ h.0,
    get-forget_key e password_changed_at g g s
        ∙ (ap (λ b. if b && str_eq g g then none else p.get (password_changed_at_key g) s) other
            ∙ h.1),
  )

  -- The stamp of the password, written under the user that is signed in.
  pub stamp-Signed :
      (g id stamp : Str) (s : S)
      → p.guard_id g s ≡ some id
      → Signed p g id stamp (some (p.put (password_changed_at_key g) stamp s))
  stamp-Signed g id stamp s h = (
    id-put_key password_changed_at g g stamp s ∙ h,
    get-put_key password_changed_at password_changed_at g g stamp s
        ∙ ap (λ b. if b then some stamp else p.get (password_changed_at_key g) s) (str_eq_refl g),
  )

  pub regenerate-Signed :
      (g id stamp : Str) (s t : S)
      → p.regenerate s ≡ some t
      → Signed p g id stamp (some s)
      → Signed p g id stamp (some t)
  regenerate-Signed g id stamp s t r h = (
    laws.id-regenerate g s t r ∙ h.0,
    laws.get-regenerate (password_changed_at_key g) s t r ∙ h.1,
  )
