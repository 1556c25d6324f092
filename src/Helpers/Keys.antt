-- ===== src/Helpers/Keys.antt =====
-- helpers/session_keys.go, helpers/impersonation.go: proofs about the keys of the session.
use mathlib.Core.List.{
  reverse, reverse-append, append_assoc, append_cancel_left, append_cancel_right,
}
use goravel_authkit.Base.{
  ◌≡◌, refl, ap, sym, ◌∙◌, Bool, true, false, ◌&&◌, ◌++◌, arith, Bool-cases, inl, inr,
}
use goravel_authkit.Text.{Str, lit, str_eq, has_prefix}
use goravel_authkit.Text.Laws.{str_eq_sound, str_eq_refl}
use goravel_authkit.Helpers.{
  Entry, password_changed_at, two_factor_user_id, remember_intent, session_token, impersonator,
  suffix, key,
}

abbrev pub same : Entry → Entry → Bool
same password_changed_at password_changed_at = true
same two_factor_user_id two_factor_user_id = true
same remember_intent remember_intent = true
same session_token session_token = true
same impersonator impersonator = true
same _ _ = false

same_sound : (e f : Entry) → same e f ≡ true → e ≡ f
same_sound password_changed_at password_changed_at h = refl
same_sound two_factor_user_id two_factor_user_id h = refl
same_sound remember_intent remember_intent h = refl
same_sound session_token session_token h = refl
same_sound impersonator impersonator h = refl
same_sound _ _ h = absurd (cc)

each {τ} :
    (P : Entry → Type τ)
    → P password_changed_at
    → P two_factor_user_id
    → P remember_intent
    → P session_token
    → P impersonator
    → (e : Entry) → P e
each P a b c d x password_changed_at = a
each P a b c d x two_factor_user_id = b
each P a b c d x remember_intent = c
each P a b c d x session_token = d
each P a b c d x impersonator = x

-- The end of a key tells which entry it is.
abbrev EndsAs : Entry → Str → Entry → Type 0
EndsAs e rest f = has_prefix (reverse (suffix f) ++ rest) (reverse (suffix e)) ≡ same e f

ends_as : (e f : Entry) (rest : Str) → EndsAs e rest f
unfolding suffix has_prefix
ends_as password_changed_at f rest =
    each (EndsAs password_changed_at rest) refl refl refl refl refl f
ends_as two_factor_user_id f rest = each (EndsAs two_factor_user_id rest) refl refl refl refl refl f
ends_as remember_intent f rest = each (EndsAs remember_intent rest) refl refl refl refl refl f
ends_as session_token f rest = each (EndsAs session_token rest) refl refl refl refl refl f
ends_as impersonator f rest = each (EndsAs impersonator rest) refl refl refl refl refl f

same_refl : (e : Entry) → same e e ≡ true
same_refl = each (λ e. same e e ≡ true) refl refl refl refl refl

key_end : (e f : Entry) (h : Str) → has_prefix (reverse (key f h)) (reverse (suffix e)) ≡ same e f
unfolding key
key_end e f h =
    rw (reverse-append (lit "authkit_") (h ++ suffix f), reverse-append h (suffix f))
      (rw (append_assoc (reverse (suffix f)) (reverse h) (reverse (lit "authkit_")))
        (ends_as e f (reverse h ++ reverse (lit "authkit_"))))

key_entry : (e f : Entry) (g h : Str) → key e g ≡ key f h → e ≡ f
key_entry e f g h k = same_sound e f (
    sym (key_end e f h)
    ∙ (ap (λ s. has_prefix (reverse s) (reverse (suffix e))) (sym k)
        ∙ (key_end e e g ∙ same_refl e)))

key_guard : (e : Entry) (g h : Str) → key e g ≡ key e h → g ≡ h
unfolding key
key_guard e g h k =
    append_cancel_right g h (suffix e)
      (append_cancel_left (lit "authkit_") (g ++ suffix e) (h ++ suffix e) k)

-- Two keys of the session are the same exactly for the same entry of the same guard.
pub str_eq-key : (e f : Entry) (g h : Str) → str_eq (key e g) (key f h) ≡ (same e f && str_eq g h)
str_eq-key e f g h = elim (Bool-cases (str_eq (key e g) (key f h))) [
  | inl t ↦
      let k = str_eq_sound (key e g) (key f h) t in
      let entry = key_entry e f g h k in
      let guard : g ≡ h = key_guard e g h (k ∙ ap (λ x. key x h) (sym entry)) in
      t
      ∙ sym (
          ap (λ x. same e x && str_eq g h) (sym entry)
          ∙ (ap (λ x. same e e && str_eq g x) (sym guard) ∙ rw (same_refl e, str_eq_refl g) refl))
  | inr t ↦ elim (Bool-cases (same e f && str_eq g h)) [
    | inl both ↦
        let entry : e ≡ f = same_sound e f (ground arith) in
        let guard : g ≡ h = str_eq_sound g h (ground arith) in
        absurd (
          cc (
            str_eq_refl (key e g),
            t,
            ap (λ x. str_eq (key e g) (key x g)) entry,
            ap (λ x. str_eq (key e g) (key f x)) guard,
          ))
    | inr f ↦ t ∙ sym f
  ]
]
