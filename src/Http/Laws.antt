-- ===== src/Http/Laws.antt =====
-- What the sources rely on of the framework's session.
use goravel_authkit.Base.{ℕ, ◌≡◌, false, none, some, if◌then◌else◌, ◌++◌}
use goravel_authkit.Text.{Str, lit, str_eq}
use goravel_authkit.Http.{Platform, ImpersonatorMarker}

-- A session is a map from keys to values, and has a user for each guard, under a key of the
-- framework's own. A login touches nothing but the user of its guard, and a new id of the session
-- keeps what is in it.
pub record IsLawful {S : Type 0} (p : Platform S) : Type 0 where
  pub get-put :
      (k j v : Str) (s : S) → p.get j (p.put k v s) ≡ (if str_eq k j then some v else p.get j s)
  pub get-forget :
      (k j : Str) (s : S) → p.get j (p.forget k s) ≡ (if str_eq k j then none else p.get j s)
  pub id-put :
      (g k v : Str) (s : S) → p.guard_id g (p.put (lit "authkit_" ++ k) v s) ≡ p.guard_id g s
  pub id-forget :
      (g k : Str) (s : S) → p.guard_id g (p.forget (lit "authkit_" ++ k) s) ≡ p.guard_id g s
  pub id-login :
      (g h id : Str) (s t : S)
      → p.guard_login g id s ≡ some t
      → p.guard_id h t ≡ (if str_eq g h then some id else p.guard_id h s)
  pub get-login :
      (g k id : Str) (s t : S)
      → p.guard_login g id s ≡ some t
      → p.get (lit "authkit_" ++ k) t ≡ p.get (lit "authkit_" ++ k) s
  pub id-logout :
      (g h : Str) (s : S)
      → p.guard_id h (p.guard_logout g s) ≡ (if str_eq g h then none else p.guard_id h s)
  pub get-logout :
      (g k : Str) (s : S)
      → p.get (lit "authkit_" ++ k) (p.guard_logout g s) ≡ p.get (lit "authkit_" ++ k) s
  pub id-regenerate :
      (g : Str) (s t : S) → p.regenerate s ≡ some t → p.guard_id g t ≡ p.guard_id g s
  pub get-regenerate : (k : Str) (s t : S) → p.regenerate s ≡ some t → p.get k t ≡ p.get k s
  pub parse-string : (id : ℕ) → p.uuid_parse (p.uuid_string id) ≡ some id
  pub string_set : (id : ℕ) → str_eq (p.uuid_string id) (lit "") ≡ false
  pub stamp_set : (at : ℕ) → str_eq (p.format_stamp at) (lit "") ≡ false
  -- JSON reads a marker back as it was written.
  pub marker_kept :
      (m : ImpersonatorMarker)
      → (text : Str) × (p.marshal_marker m ≡ some text)
        × (str_eq text (lit "") ≡ false)
        × (p.unmarshal_marker text ≡ some m)
