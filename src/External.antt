-- ===== src/External.antt =====
-- What the sources call and do not define: the tables of Unicode, SHA-256, the Hash and Crypt
-- facades, TOTP, the JSON form of recovery codes and the parser of mail addresses. Each is a
-- field, and a theorem that relies on a law of one has that law as a hypothesis.
use goravel_authkit.Base.{ℕ, Bool, List, Option}
use goravel_authkit.Text.{Str}
use goravel_authkit.Errors.{Result}
use goravel_authkit.Models.{RecoveryCode}

pub record External : Type 0 where
  -- Case mapping and simple folding of the code points from 128 on.
  pub lower_table : ℕ → ℕ
  pub upper_table : ℕ → ℕ
  pub fold_table : ℕ → ℕ
  -- hex(sha256(s))
  pub sha256_hex : Str → Str
  -- Hasher: `hash_make salt value`, `hash_check value hashed`.
  pub hash_make : ℕ → Str → Result Str
  pub hash_check : Str → Str → Bool
  -- Crypter: `encrypt nonce value`, `decrypt payload`.
  pub encrypt : ℕ → Str → Result Str
  pub decrypt : Str → Result Str
  -- totp.Generate: the secret and the URL; totp.Validate code secret now; and
  -- totp.GenerateCodeCustom secret t, whose errors are skipped by the sources.
  pub totp_generate : ℕ → Str → Str → Result (Str × Str)
  pub totp_validate : Str → Str → ℕ → Bool
  pub totp_code : Str → ℕ → Option Str
  -- json.Marshal and json.Unmarshal on recovery codes.
  pub marshal_codes : List RecoveryCode → Result Str
  pub unmarshal_codes : Str → Result (List RecoveryCode)
  -- mail.ParseAddress: the address part.
  pub parse_address : Str → Option Str
