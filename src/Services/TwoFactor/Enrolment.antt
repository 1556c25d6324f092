-- ===== src/Services/TwoFactor/Enrolment.antt =====
-- services/twofactor.go: enrolment, from Enable over Confirm to Disable.
use goravel_authkit.Base.{
  ℕ, ◌≡◌, refl, true, false, List, [], ◌∷◌, Option, none, some, arith, first, count,
}
use goravel_authkit.Text.{Str, lit, str_eq}
use goravel_authkit.Errors.{ok}
use goravel_authkit.Models.{User}
use goravel_authkit.External.{External}
use goravel_authkit.Store.{Db, Tables, done, machine}
use goravel_authkit.Text.{trim_space}
use goravel_authkit.Models.{two_factor_enabled}
use goravel_authkit.Repositories.Users
use goravel_authkit.Repositories.Users.{select_id, unless_nil, with_id, set_two_factor}
use goravel_authkit.Repositories.Users.Laws.{unless_nil-some}
use goravel_authkit.Services.TwoFactor.{enable, confirm, disable, generate_recovery_codes}

abbrev at_rest : Tables → Db
at_rest tables = record { tables = tables; faults = [] }

-- The row with the columns that UpdateTwoFactor writes.
abbrev pub with_two_factor : User → Option Str → Option Str → Option ℕ → User
with_two_factor u secret codes confirmed_at = record u {
  two_factor_secret = secret;
  two_factor_recovery_codes = codes;
  two_factor_confirmed_at = confirmed_at;
}

first-set_two_factor :
    (id : ℕ) (secret codes : Option Str) (at : Option ℕ) (us : List User) (v : User)
    → first (with_id id) us ≡ some v
    → first (with_id id) (set_two_factor id secret codes at us)
      ≡ some (with_two_factor v secret codes at)
unfolding set_two_factor
first-set_two_factor id secret codes at [] v e = cc
first-set_two_factor id secret codes at (w ∷ us) v e =
    ground (arith, first-set_two_factor id secret codes at us v)

pub select_id-set_two_factor :
    (id : ℕ) (secret codes : Option Str) (at : Option ℕ) (us : List User) (v : User)
    → select_id id us ≡ some v
    → select_id id (set_two_factor id secret codes at us) ≡ some (with_two_factor v secret codes at)
unfolding select_id unless_nil
select_id-set_two_factor id secret codes at us v e =
    let row = unless_nil-some (first (with_id id) us) v e in
    rw (first-set_two_factor id secret codes at us v row.0) (ground arith)

module _ (ext : External) where
  abbrev written : ℕ → Option Str → Option Str → Option ℕ → Tables → Tables
  written id secret codes at tables = record tables {
    users = set_two_factor id secret codes at tables.users;
  }

  enable_lem :
      (issuer url secret enc : Str) (seed nonce id : ℕ) (u : User) (tables : Tables)
      → select_id id tables.users ≡ some u
      → two_factor_enabled u ≡ false
      → ext.totp_generate seed issuer u.email ≡ ok (secret, url)
      → ext.encrypt nonce secret ≡ ok enc
      → enable ext issuer seed nonce id (at_rest tables)
        ≡ done (secret, url) (at_rest (written id (some enc) none none tables))
  unfolding enable machine Users.find_by_id Users.update_two_factor
  enable_lem issuer url secret enc seed nonce id u tables found plain generated stored =
      rw (found, plain, generated, stored) refl

  confirm_lem :
      (count nonce now id : ℕ) (random : List (Option ℕ)) (code secret enc sealed : Str)
      (codes : List Str) (u : User) (tables : Tables)
      → select_id id tables.users ≡ some (with_two_factor u (some enc) none none)
      → str_eq enc (lit "") ≡ false
      → ext.decrypt enc ≡ ok secret
      → ext.totp_validate (trim_space code) secret now ≡ true
      → generate_recovery_codes ext count nonce random ≡ ok (codes, sealed)
      → confirm ext count nonce now id random code (at_rest tables)
        ≡ done codes (at_rest (written id (some enc) (some sealed) (some now) tables))
  unfolding confirm machine Users.find_by_id Users.update_two_factor two_factor_enabled
  confirm_lem count nonce now id random code secret enc sealed codes u tables found set plain good
        made =
      rw (found, set, plain, good, made) refl

  disable_lem :
      (id : ℕ) (u : User) (tables : Tables)
      → select_id id tables.users ≡ some u
      → disable ext id (at_rest tables) ≡ done tt (at_rest (written id none none none tables))
  unfolding disable machine Users.find_by_id Users.update_two_factor
  disable_lem id u tables found = rw found refl

  -- An account that is not enrolled is still not after Enable, is enrolled after Confirm with a
  -- valid code, and is not after Disable. The recovery codes can be drawn and stored, what is
  -- encrypted can be decrypted and is not empty, and no call fails.
  pub enable-confirm :
      (issuer url secret enc sealed code : Str) (seed nonce count nonce' now id : ℕ)
      (random : List (Option ℕ)) (codes : List Str) (u : User) (tables : Tables)
      → select_id id tables.users ≡ some u
      → two_factor_enabled u ≡ false
      → ext.totp_generate seed issuer u.email ≡ ok (secret, url)
      → ext.encrypt nonce secret ≡ ok enc
      → ext.decrypt enc ≡ ok secret
      → str_eq enc (lit "") ≡ false
      → ext.totp_validate (trim_space code) secret now ≡ true
      → generate_recovery_codes ext count nonce' random ≡ ok (codes, sealed)
      → (pending : Tables) × (enrolled : Tables) × (last : Tables) × (p : User) × (q : User)
        × (r : User) × (enable ext issuer seed nonce id (at_rest tables)
            ≡ done (secret, url) (at_rest pending))
        × (select_id id pending.users ≡ some p)
        × (two_factor_enabled p ≡ false)
        × (confirm ext count nonce' now id random code (at_rest pending)
            ≡ done codes (at_rest enrolled))
        × (select_id id enrolled.users ≡ some q)
        × (two_factor_enabled q ≡ true)
        × (disable ext id (at_rest enrolled) ≡ done tt (at_rest last))
        × (select_id id last.users ≡ some r)
        × (two_factor_enabled r ≡ false)
  unfolding two_factor_enabled
  enable-confirm issuer url secret enc sealed code seed nonce count nonce' now id random codes u
        tables found plain generated stored decrypted set good made =
      let pending = written id (some enc) none none tables in
      let enrolled = written id (some enc) (some sealed) (some now) pending in
      let p = with_two_factor u (some enc) none none in
      let q = with_two_factor p (some enc) (some sealed) (some now) in
      let at_pending = select_id-set_two_factor id (some enc) none none tables.users u found in
      let at_enrolled =
        select_id-set_two_factor id (some enc) (some sealed) (some now) pending.users p
          at_pending in
      (
        pending,
        enrolled,
        written id none none none enrolled,
        p,
        q,
        with_two_factor q none none none,
        enable_lem issuer url secret enc seed nonce id u tables found plain generated stored,
        at_pending,
        refl,
        confirm_lem count nonce' now id random code secret enc sealed codes u pending at_pending set
            decrypted good made,
        at_enrolled,
        ground arith,
        disable_lem id q enrolled at_enrolled,
        select_id-set_two_factor id none none none enrolled.users q at_enrolled,
        refl,
      )
