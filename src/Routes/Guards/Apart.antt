-- ===== src/Routes/Guards/Apart.antt =====
-- routes/guards.go: proofs about the options of different guards.
use mathlib.Core.List.{append_cancel_right, append_cancel_left}
use goravel_authkit.Base.{
  ◌≡◌, ◌≢◌, refl, ap, sym, ◌∙◌, true, false, List, [], ◌∷◌, ◌++◌, map, is_empty, first, Bool-cases,
  inl, inr, arith,
}
use goravel_authkit.Text.{Str, lit, str_eq, mem_str}
use goravel_authkit.Text.Laws.{str_eq_sound, str_eq_refl}
use goravel_authkit.Services.ApiTokens.Scopes.{sort_strings, insert_str}
use goravel_authkit.Routes.{Options}
use goravel_authkit.Routes.Config.{Config, at, options_for_guard}
use goravel_authkit.Routes.Guards.{guard_config_names, guard_options, or_declared, options_by_guard}

insert_str_some : (s : Str) (ts : List Str) → is_empty (insert_str s ts) ≡ false
unfolding insert_str
insert_str_some s [] = refl
insert_str_some s (t ∷ ts) = ground arith

sort_strings_some : (ss : List Str) → is_empty ss ≡ false → is_empty (sort_strings ss) ≡ false
unfolding sort_strings
sort_strings_some [] e = absurd (cc)
sort_strings_some (s ∷ ss) e = insert_str_some s (sort_strings ss)

-- The keys that name the tables and the cookie of a guard.
abbrev naming_keys : List Str
naming_keys =
    lit "users_table"
    ∷ lit "audit_table"
    ∷ lit "remember_tokens_table"
    ∷ lit "sessions_table"
    ∷ lit "api_tokens_table"
    ∷ lit "remember_cookie_name"
    ∷ []

-- The configuration gives no name for the tables or the cookie of the guard.
abbrev pub IsPlain : Config → (guard : Str) → Type 0
IsPlain cfg guard =
    (key default : Str)
    → mem_str naming_keys key ≡ true
    → cfg.get_string (at cfg guard key) default ≡ default

-- No table and no cookie is shared.
abbrev pub Apart : Options → Options → Type 0
Apart a b =
    (a.users_table ≢ b.users_table)
    × (a.audit_table ≢ b.audit_table)
    × (a.remember_tokens_table ≢ b.remember_tokens_table)
    × (a.sessions_table ≢ b.sessions_table)
    × (a.api_tokens_table ≢ b.api_tokens_table)
    × (a.remember_cookie_name ≢ b.remember_cookie_name)

module _ (cfg : Config) where
  guard_of : (name : Str) → (options_for_guard cfg name).guard ≡ name
  unfolding options_for_guard
  guard_of name = refl

  first_declared :
      (name : Str) (names : List Str)
      → or_declared cfg name (first (λ o. str_eq o.guard name) (map (options_for_guard cfg) names))
        ≡ options_for_guard cfg name
  first_declared name [] = refl
  first_declared name (n ∷ names) = elim (Bool-cases (str_eq n name)) [
    | inl t ↦
        rw (ap (λ x. str_eq x name) (guard_of n) ∙ t)
          (ap (options_for_guard cfg) (str_eq_sound n name t))
    | inr f ↦ rw (ap (λ x. str_eq x name) (guard_of n) ∙ f) (first_declared name names)
  ]

  -- Where guards are declared, the options of a name are its own.
  options_by_guard_lem :
      (name : Str)
      → is_empty (cfg.keys (lit "authkit.guards")) ≡ false
      → options_by_guard cfg name ≡ options_for_guard cfg name
  unfolding options_by_guard guard_options guard_config_names
  options_by_guard_lem name e =
      rw (sort_strings_some (cfg.keys (lit "authkit.guards")) e)
        (first_declared name (sort_strings (cfg.keys (lit "authkit.guards"))))

  module _ (g h : Str) (other : str_eq g h ≡ false) (pg : IsPlain cfg g) (ph : IsPlain cfg h) where
    abbrev value : (guard key default : Str) → Str
    value guard key default = cfg.get_string (at cfg guard key) default

    apart : g ≢ h
    apart e = let same : str_eq g h ≡ true = ap (str_eq g) (sym e) ∙ str_eq_refl g in absurd (cc)

    derived :
        (key : Str)
        → mem_str naming_keys key ≡ true
        → (a b : Str) → value g key a ≡ value h key b
        → a ≡ b
    derived key k a b e = sym (pg key a k) ∙ (e ∙ ph key b k)

    behind :
        (key tail : Str)
        → mem_str naming_keys key ≡ true
        → value g key (g ++ tail) ≢ value h key (h ++ tail)
    behind key tail k e =
        apart (append_cancel_right g h tail (derived key k (g ++ tail) (h ++ tail) e))

    abbrev cookie : (guard : Str) → Str
    cookie guard = lit "authkit_" ++ (guard ++ lit "_remember")

    between :
        (key : Str)
        → mem_str naming_keys key ≡ true
        → value g key (cookie g) ≢ value h key (cookie h)
    between key k e = apart (
        append_cancel_right g h (lit "_remember") (
          append_cancel_left (lit "authkit_") (g ++ lit "_remember") (h ++ lit "_remember")
            (derived key k (cookie g) (cookie h) e)))

    options_for_guard-Apart : Apart (options_for_guard cfg g) (options_for_guard cfg h)
    unfolding options_for_guard mem_str str_eq
    options_for_guard-Apart = (
      behind (lit "users_table") (lit "_users") refl,
      behind (lit "audit_table") (lit "_audit_logs") refl,
      behind (lit "remember_tokens_table") (lit "_remember_tokens") refl,
      behind (lit "sessions_table") (lit "_auth_sessions") refl,
      behind (lit "api_tokens_table") (lit "_api_tokens") refl,
      between (lit "remember_cookie_name") refl,
    )

    -- Where the configuration declares guards, two guards of different names for which it names
    -- no tables and no cookie have different tables of every kind and different cookies.
    pub options_by_guard-Apart :
        is_empty (cfg.keys (lit "authkit.guards")) ≡ false
        → Apart (options_by_guard cfg g) (options_by_guard cfg h)
    options_by_guard-Apart e =
        rw (options_by_guard_lem g e, options_by_guard_lem h e) options_for_guard-Apart
