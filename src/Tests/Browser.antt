-- ===== src/Tests/Browser.antt =====
-- A session as two functions, for the tests: a stand-in for the framework that has its laws.
use goravel_authkit.Base.{
  ℕ, zero, suc, ◌≡◌, refl, ap, sym, Bool, true, false, [], ◌∷◌, ◌++◌, Option, none, some,
  if◌then◌else◌,
}
use goravel_authkit.Text.{Str, lit, str_eq}
use goravel_authkit.Http.{Platform, ImpersonatorMarker, Context, Request, untouched}
use goravel_authkit.Http.Laws.{IsLawful}
use goravel_authkit.Store.{Db}

-- The values, and the users of the guards.
abbrev pub Jar : Type 0
Jar = (Str → Option Str) × (Str → Option Str)

abbrev written : (key : Str) → Option Str → (Str → Option Str) → Str → Option Str
written k v f j = if str_eq k j then v else f j

abbrev flag : Bool → ℕ
flag true = 1
flag false = 0

abbrev is_flag : ℕ → Bool
is_flag zero = false
is_flag (suc n) = true

-- A text with its end marked, before a rest.
abbrev mark_end : Str → Str → Str
mark_end [] rest = 0 ∷ rest
mark_end (c ∷ s) rest = 1 ∷ c ∷ mark_end s rest

abbrev onto : ℕ → Str × Str → Str × Str
onto c (s, rest) = (c ∷ s, rest)

abbrev read_end : Str → Str × Str
read_end [] = ([], [])
read_end (zero ∷ rest) = ([], rest)
read_end (suc n ∷ []) = ([], [])
read_end (suc n ∷ c ∷ s) = onto c (read_end s)

read_end-mark_end : (s rest : Str) → read_end (mark_end s rest) ≡ (s, rest)
read_end-mark_end [] rest = refl
read_end-mark_end (c ∷ s) rest = ap (onto c) (read_end-mark_end s rest)

abbrev pub write_marker : ImpersonatorMarker → Str
write_marker m = m.user_id ∷ flag m.same_guard ∷ mark_end m.guard m.email

abbrev marker_with : ℕ → Bool → Str × Str → ImpersonatorMarker
marker_with id same (guard, email) = record {
  guard = guard;
  user_id = id;
  email = email;
  same_guard = same;
}

abbrev read_json : Str → Option ImpersonatorMarker
read_json (id ∷ same ∷ s) = some (marker_with id (is_flag same) (read_end s))
read_json _ = none

abbrev number_in : Str → Option ℕ
number_in (c ∷ n ∷ []) = some n
number_in _ = none

abbrev pub browser : Platform Jar
browser = record {
  get = λ k s. s.0 k;
  put = λ k v s. (written k (some v) s.0, s.1);
  forget = λ k s. (written k none s.0, s.1);
  guard_id = λ g s. s.1 g;
  guard_login = λ g id s. some (s.0, written g (some id) s.1);
  guard_logout = λ g s. (s.0, written g none s.1);
  regenerate = λ s. some s;
  uuid_string = λ id. b'u' ∷ id ∷ [];
  uuid_parse = number_in;
  format_stamp = λ at. b't' ∷ at ∷ [];
  format_time = λ at. b'd' ∷ at ∷ [];
  marshal_marker = λ m. some (write_marker m);
  unmarshal_marker = read_json;
}

some_inj : {x y : Jar} → some x ≡ some y → x ≡ y
some_inj {x} e = ap (λ (o : Option Jar). elim o [ none ↦ x | some z ↦ z ]) e

flag_kept : (b : Bool) → is_flag (flag b) ≡ b
flag_kept true = refl
flag_kept false = refl

marker_read : (m : ImpersonatorMarker) → read_json (write_marker m) ≡ some m
marker_read m = rw (flag_kept m.same_guard, read_end-mark_end m.guard m.email) refl

pub browser-IsLawful : IsLawful browser
unfolding str_eq
browser-IsLawful = record {
  get-put = λ k j v s. refl;
  get-forget = λ k j s. refl;
  id-put = λ g k v s. refl;
  id-forget = λ g k s. refl;
  id-login = λ g h id s t e. ap (λ (x : Jar). x.1 h) (sym (some_inj e));
  get-login = λ g k id s t e. ap (λ (x : Jar). x.0 (lit "authkit_" ++ k)) (sym (some_inj e));
  id-logout = λ g h s. refl;
  get-logout = λ g k s. refl;
  id-regenerate = λ g s t e. ap (λ (x : Jar). x.1 g) (sym (some_inj e));
  get-regenerate = λ k s t e. ap (λ (x : Jar). x.0 k) (sym (some_inj e));
  parse-string = λ id. refl;
  string_set = λ id. refl;
  stamp_set = λ at. refl;
  marker_kept = λ m. (write_marker m, refl, refl, marker_read m);
}

abbrev pub fresh_jar : Jar
fresh_jar = (λ k. none, λ g. none)

abbrev pub visit : Jar → Db → (user : ℕ) → Context Jar
visit jar db user = record {
  session = some jar;
  db = db;
  auth_user_id = user;
  remember_cookie = untouched;
  session_cookie = false;
  retry_after = none;
}

abbrev pub from_home : (cookie : Str) → Request
from_home cookie = record { ip = lit "::1"; user_agent = lit "curl"; remember_cookie = cookie }
