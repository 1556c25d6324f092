-- ===== src/Middleware/Csrf.antt =====
-- http/middleware/csrf.go: the origin of a request that is not safe. url.Parse is a parameter.
pub mod Origins
use goravel_authkit.Base.{
  Bool, true, false, not, ◌&&◌, ◌||◌, List, [], ◌∷◌, ◌++◌, Option, none, some, if◌then◌else◌,
}
use goravel_authkit.Text.{
  Str, lit, str_eq, trim_space, to_lower, equal_fold, trim_suffix_rune, mem_str,
}
use goravel_authkit.External.{External}

-- What the code reads of a url.URL.
pub record Url : Type 0 where
  pub scheme : Str
  pub host : Str
  pub path : Str
  pub raw_query : Str
  pub fragment : Str
  pub has_user : Bool

unfoldable pub is_safe_method : Str → Bool
is_safe_method method =
    str_eq method (lit "GET") || str_eq method (lit "HEAD") || str_eq method (lit "OPTIONS")

-- A scheme and a host, no user.
abbrev pub is_absolute : Url → Bool
is_absolute u = not (str_eq u.scheme (lit "")) && (not (str_eq u.host (lit "")) && not u.has_user)

abbrev pub is_bare : Url → Bool
is_bare u = str_eq u.path (lit "") && (str_eq u.raw_query (lit "") && str_eq u.fragment (lit ""))

module _ (ext : External) (parse : Str → Option Url) where
  unfoldable pub equal_host : (left right : Str) → Bool
  equal_host left right =
      equal_fold ext.fold_table (trim_suffix_rune left b'.') (trim_suffix_rune right b'.')

  unfoldable pub canonical_origin : Url → Str
  canonical_origin u =
      to_lower ext.lower_table u.scheme
      ++ (lit "://" ++ to_lower ext.lower_table (trim_suffix_rune u.host b'.'))

  abbrev pub is_http : Url → Bool
  is_http u =
      equal_fold ext.fold_table u.scheme (lit "http")
      || equal_fold ext.fold_table u.scheme (lit "https")

  abbrev pub normalize_parsed : Option Url → Option Str
  normalize_parsed none = none
  normalize_parsed (some u) =
      if is_absolute u && is_bare u
      then (if is_http u then some (canonical_origin u) else none)
      else none

  unfoldable pub normalize_trusted_origin : Str → Option Str
  normalize_trusted_origin raw = normalize_parsed (parse (trim_space raw))

  -- The set of VerifyRequestOrigin.
  unfoldable pub trusted_set : List Str → List Str
  trusted_set [] = []
  trusted_set (origin ∷ origins) =
      let rest = trusted_set origins in
      elim (normalize_trusted_origin origin) [ none ↦ rest | some n ↦ n ∷ rest ]

  abbrev pub allowed_parsed :
      (trusted : List Str) → (host : Str) → Option Url → (allow_path : Bool) → Bool
  allowed_parsed trusted host none allow_path = false
  allowed_parsed trusted host (some u) allow_path =
      is_absolute u
      && ((allow_path || is_bare u)
          && (is_http u && (equal_host u.host host || mem_str trusted (canonical_origin u))))

  unfoldable pub allowed_url : (trusted : List Str) → (host raw : Str) → (allow_path : Bool) → Bool
  allowed_url trusted host raw allow_path = allowed_parsed trusted host (parse raw) allow_path

  unfoldable pub allowed : (trusted : List Str) → (host origin referer fetch_site : Str) → Bool
  allowed trusted host origin referer fetch_site =
      if not (str_eq origin (lit ""))
      then allowed_url trusted host origin false
      else if not (str_eq referer (lit ""))
      then allowed_url trusted host referer true
      else equal_fold ext.fold_table (trim_space fetch_site) (lit "same-origin")

  -- `true` goes on, `false` is a 403.
  unfoldable pub verify_request_origin :
      (trusted_origins : List Str) → (method host origin referer fetch_site : Str) → Bool
  verify_request_origin trusted_origins method host origin referer fetch_site =
      is_safe_method method || allowed (trusted_set trusted_origins) host origin referer fetch_site
