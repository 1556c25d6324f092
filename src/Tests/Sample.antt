-- ===== src/Tests/Sample.antt =====
-- Sample data.
use goravel_authkit.Base.{
  ◌≡◌, refl, ap, ◌∙◌, ℕ, zero, suc, true, List, [], ◌∷◌, ◌++◌, Option, none, some,
}
use goravel_authkit.Text.{Str, lit, str_eq}
use goravel_authkit.Errors.{ok}
use goravel_authkit.Models.{User, AuthSession, RecoveryCode, ApiToken}
use goravel_authkit.External.{External}
use goravel_authkit.Store.{Db, Tables}
use goravel_authkit.Services.Users.{Config}

abbrev used_code : Option ℕ → ℕ
used_code none = 0
used_code (some t) = suc t

abbrev used_of : ℕ → Option ℕ
used_of zero = none
used_of (suc t) = some t

-- A text with a 1 before each character and a 0 behind the last.
abbrev mark_end : Str → Str → Str
mark_end [] rest = 0 ∷ rest
mark_end (c ∷ s) rest = 1 ∷ c ∷ mark_end s rest

abbrev pub pack : List RecoveryCode → Str
pack [] = []
pack (c ∷ codes) = mark_end c.hash (used_code c.used_at ∷ pack codes)

abbrev onto_first : ℕ → List RecoveryCode → List RecoveryCode
onto_first c [] = []
onto_first c (r ∷ codes) = record r { hash = c ∷ r.hash } ∷ codes

abbrev unpack : Str → List RecoveryCode
unpack [] = []
unpack (zero ∷ []) = []
unpack (zero ∷ u ∷ s) = record { hash = []; used_at = used_of u } ∷ unpack s
unpack (suc n ∷ []) = []
unpack (suc n ∷ c ∷ s) = onto_first c (unpack s)

used_of-used_code : (o : Option ℕ) → used_of (used_code o) ≡ o
used_of-used_code none = refl
used_of-used_code (some t) = refl

unpack-mark_end :
    (h : Str) (o : Option ℕ) (s : Str)
    → unpack (mark_end h (used_code o ∷ s)) ≡ record { hash = h; used_at = o } ∷ unpack s
unpack-mark_end [] o s = rw (used_of-used_code o) refl
unpack-mark_end (c ∷ h) o s = ap (onto_first c) (unpack-mark_end h o s)

pub unpack-pack : (codes : List RecoveryCode) → unpack (pack codes) ≡ codes
unpack-pack [] = refl
unpack-pack (c ∷ codes) =
    unpack-mark_end c.hash c.used_at (pack codes) ∙ ap (λ cs. c ∷ cs) (unpack-pack codes)

-- Stand-ins: the hash of a password is the password behind an "h", encryption and SHA-256 keep
-- the text, and the code of a secret is the secret.
abbrev pub sample : External
sample = record {
  lower_table = λ c. c;
  upper_table = λ c. c;
  fold_table = λ c. c;
  sha256_hex = λ s. s;
  hash_make = λ salt value. ok (lit "h" ++ value);
  hash_check = λ value hashed. str_eq (lit "h" ++ value) hashed;
  encrypt = λ nonce value. ok value;
  decrypt = λ payload. ok payload;
  totp_generate = λ seed issuer email. ok (issuer, email);
  totp_validate = λ code secret now. str_eq code secret;
  totp_code = λ secret t. some secret;
  marshal_codes = λ codes. ok (pack codes);
  unmarshal_codes = λ json. ok (unpack json);
  parse_address = λ s. some s;
}

abbrev pub account : (id : ℕ) → (email role : Str) → User
account id email role = record {
  id = id;
  name = none;
  email = email;
  email_verified = none;
  image = none;
  password_hash = some (lit "hold secret");
  password_changed_at = 1;
  role = role;
  disabled_at = none;
  two_factor_secret = some (lit "123456");
  two_factor_recovery_codes = some (
      pack (
        record { hash = lit "A"; used_at = none }
        ∷ record { hash = lit "B"; used_at = none }
        ∷ []));
  two_factor_confirmed_at = some 5;
  two_factor_last_used_at = none;
  created_at = 1;
}

abbrev pub ann : User
ann = account 1 (lit "ann@x.org") (lit "admin")

abbrev pub bob : User
bob = account 2 (lit "bob@x.org") (lit "admin")

abbrev pub session : (id : ℕ) → (session_id : Str) → (user : ℕ) → AuthSession
session id session_id user = record {
  id = id;
  session_id = session_id;
  user_id = user;
  ip = lit "::1";
  user_agent = lit "curl";
  created_at = 10;
  last_active_at = 20;
}

abbrev pub api_token : (id : ℕ) → (selector : Str) → (user : ℕ) → ApiToken
api_token id selector user = record {
  id = id;
  user_id = user;
  name = lit "ci";
  selector = selector;
  validator_hash = lit "v";
  scopes = [];
  expires_at = 1000;
  last_used_at = none;
  revoked_at = none;
  created_at = 10;
}

abbrev pub tables : Tables
tables = record {
  users = ann ∷ bob ∷ [];
  remember_tokens = [];
  sessions = session 1 (lit "s1") 1 ∷ session 2 (lit "s2") 1 ∷ session 3 (lit "s3") 2 ∷ [];
  api_tokens = api_token 1 (lit "sel") 1 ∷ [];
  audit_logs = [];
}

abbrev pub db : Db
db = record { tables = tables; faults = [] }

abbrev pub settings : Config
settings = record {
  min_pw_len = 8;
  roles = lit "admin" ∷ lit "user" ∷ [];
  management_roles = lit "admin" ∷ [];
  api_tokens = true;
  revoke_api_tokens_on_password_change = true;
}
