-- ===== src/Middleware/Csrf/Origins.antt =====
-- http/middleware/csrf.go: which origins pass.
use goravel_authkit.Base.{
  ◌≡◌, refl, ap, ◌∙◌, true, false, ◌||◌, List, [], ◌∷◌, Option, none, some, arith, Bool-cases, inl,
  inr, ◌↔◌, ◌⊎◌, Option-cases,
}
use goravel_authkit.Text.{Str, lit, str_eq, mem_str}
use goravel_authkit.Text.Laws.{str_eq_refl, str_eq_sound}
use goravel_authkit.External.{External}
use goravel_authkit.Middleware.Csrf.{
  Url, is_safe_method, is_absolute, is_bare, is_http, equal_host, canonical_origin,
  normalize_trusted_origin, trusted_set, allowed_parsed, allowed_url, allowed,
  verify_request_origin,
}

module _ (ext : External) (parse : Str → Option Url) where
  trusted_set-origin :
      (origins : List Str) (n : Str)
      → mem_str (trusted_set ext parse origins) n ≡ true
      → (o : Str) × (mem_str origins o ≡ true) × (normalize_trusted_origin ext parse o ≡ some n)
  unfolding trusted_set mem_str
  trusted_set-origin [] n h = cc
  trusted_set-origin (o ∷ origins) n h =
      elim (Option-cases (normalize_trusted_origin ext parse o)) [
        | inl e ↦
            let (p, m, f) = trusted_set-origin origins n (ground arith) in (p, ground arith, f)
        | inr (k, e) ↦ elim (Bool-cases (str_eq k n)) [
          | inl same ↦ (o, ground (arith, str_eq_refl o), e ∙ ap some (str_eq_sound k n same))
          | inr other ↦
              let (p, m, f) = trusted_set-origin origins n (ground arith) in (p, ground arith, f)
        ]
      ]

  origin-trusted_set :
      (origins : List Str) (o n : Str)
      → mem_str origins o ≡ true
      → normalize_trusted_origin ext parse o ≡ some n
      → mem_str (trusted_set ext parse origins) n ≡ true
  unfolding trusted_set mem_str
  origin-trusted_set [] o n m e = cc
  origin-trusted_set (p ∷ origins) o n m e = elim (Bool-cases (str_eq p o)) [
    | inl same ↦
        let here : normalize_trusted_origin ext parse p ≡ some n =
          ap (normalize_trusted_origin ext parse) (str_eq_sound p o same) ∙ e in
        ground (arith, str_eq_refl n)
    | inr other ↦
        let there = origin-trusted_set origins o n (ground arith) e in
        elim (Option-cases (normalize_trusted_origin ext parse p)) [
          | inl f ↦ ground arith
          | inr (k, f) ↦ ground arith
        ]
  ]

  -- The origin of a request that passes: it is parsed, has an http scheme, a host, and nothing
  -- else, and it is the host of the request or the same as an origin of the configuration.
  abbrev pub Vouched : (origins : List Str) → (host origin : Str) → Type 0
  Vouched origins host origin =
      (u : Url) × (parse origin ≡ some u)
      × (is_absolute u ≡ true)
      × (is_bare u ≡ true)
      × (is_http ext parse u ≡ true)
      × ((equal_host ext parse u.host host ≡ true)
          ⊎ ((o : Str) × (mem_str origins o ≡ true)
              × (normalize_trusted_origin ext parse o ≡ some (canonical_origin ext parse u))))

  parsed-Vouched :
      (origins : List Str) (host origin : Str) (row : Option Url)
      → parse origin ≡ row
      → allowed_parsed ext parse (trusted_set ext parse origins) host row false ≡ true
      → Vouched origins host origin
  parsed-Vouched origins host origin none e h = cc
  parsed-Vouched origins host origin (some u) e h = (
    u,
    e,
    ground arith,
    ground arith,
    ground arith,
    elim (Bool-cases (equal_host ext parse u.host host)) [
      | inl same ↦ inl same
      | inr other ↦ inr (trusted_set-origin origins (canonical_origin ext parse u) (ground arith))
    ],
  )

  verify_request_origin-Vouched :
      (origins : List Str) (method host origin referer fetch_site : Str)
      → is_safe_method method ≡ false
      → str_eq origin (lit "") ≡ false
      → verify_request_origin ext parse origins method host origin referer fetch_site ≡ true
      → Vouched origins host origin
  unfolding verify_request_origin allowed allowed_url
  verify_request_origin-Vouched origins method host origin referer fetch_site unsafe set h =
      parsed-Vouched origins host origin (parse origin) refl (ground arith)

  Vouched-verify_request_origin :
      (origins : List Str) (method host origin referer fetch_site : Str)
      → str_eq origin (lit "") ≡ false
      → Vouched origins host origin
      → verify_request_origin ext parse origins method host origin referer fetch_site ≡ true
  unfolding verify_request_origin allowed allowed_url
  Vouched-verify_request_origin origins method host origin referer fetch_site set v =
      let (u, e, absolute, bare, http, why) = v in
      let trusted : (equal_host ext parse u.host host
            || mem_str (trusted_set ext parse origins) (canonical_origin ext parse u))
          ≡ true =
        elim why [
          | inl same ↦ ground arith
          | inr (o, m, n) ↦
              ground (arith, origin-trusted_set origins o (canonical_origin ext parse u) m n)
        ] in
      rw (set, e) (ground arith)

  -- A request whose method is not safe and that has an Origin header is let through exactly if
  -- the origin is parsed, has an http scheme, a host and nothing else, and has the host of the
  -- request or is the same as an origin of the configuration; its other headers do not matter.
  pub verify_request_origin_iff :
      (origins : List Str) (method host origin referer fetch_site : Str)
      → is_safe_method method ≡ false
      → str_eq origin (lit "") ≡ false
      → (verify_request_origin ext parse origins method host origin referer fetch_site ≡ true)
        ↔ Vouched origins host origin
  verify_request_origin_iff origins method host origin referer fetch_site unsafe set = (
    verify_request_origin-Vouched origins method host origin referer fetch_site unsafe set,
    Vouched-verify_request_origin origins method host origin referer fetch_site set,
  )
