-- ===== src/Services/TwoFactor/Spending.antt =====
-- services/twofactor.go: spending a recovery code at the database.
use goravel_authkit.Base.{
  Option, sym, Bool-cases, inl, inr, ℕ, suc, ◌≡◌, refl, ap, ◌∙◌, true, false, ◌&&◌, List, none,
  some, arith, is_some,
}
use goravel_authkit.Text.{Str}
use goravel_authkit.Errors.{ok}
use goravel_authkit.Models.{User}
use goravel_authkit.External.{External}
use goravel_authkit.Store.{Tables, done, machine}
use goravel_authkit.Models.{RecoveryCode, two_factor_enabled}
use goravel_authkit.Repositories.Users
use goravel_authkit.Repositories.Users.{select_id, save_row}
use goravel_authkit.Services.TwoFactor.{
  accept_step, is_fresh, consume_recovery_code, enrolled_or_internal, text_of,
  decode_recovery_codes, encode_recovery_codes, remaining_recovery_codes,
}
use goravel_authkit.Services.TwoFactor.Recovery.{spend, unused, hash_recovery_code}
use goravel_authkit.Services.TwoFactor.Codes.{
  DistinctHashes, spend-unused, spend-spend, spend-none, spend-anytime,
}
use goravel_authkit.Services.TwoFactor.Replay.{at_rest}
use goravel_authkit.Services.TwoFactor.Attempts.{Attempt, run, Row, run-Row, select_id-save_row}
use mathlib.Core.Path.{subst}

same_value : {A : Type 0} {x y : A} → ok x ≡ ok y → x ≡ y
same_value e = ground arith

module _ (ext : External) where
  -- The account is enrolled, and holds these codes.
  abbrev pub Holds : User → List RecoveryCode → Type 0
  Holds u codes =
      ((two_factor_enabled u && is_some u.two_factor_recovery_codes) ≡ true)
      × (decode_recovery_codes ext (text_of u.two_factor_recovery_codes) ≡ ok codes)

  abbrev pub with_codes : User → Str → User
  with_codes u enc = record u { two_factor_recovery_codes = some enc }

  spent_lem :
      (nonce now id : ℕ) (code enc : Str) (u : User) (tables : Tables)
      (codes after : List RecoveryCode)
      → select_id id tables.users ≡ some u
      → Holds u codes
      → spend (hash_recovery_code ext code) now codes ≡ some after
      → encode_recovery_codes ext nonce after ≡ ok enc
      → consume_recovery_code ext nonce now id code (at_rest tables)
        ≡ done true (at_rest (record tables { users = save_row (with_codes u enc) tables.users }))
  unfolding consume_recovery_code machine Users.mutate_locked enrolled_or_internal Users.find_by_id
      Users.save
  spent_lem nonce now id code enc u tables codes after found held spent stored =
      rw (found, held.0, held.1, spent, stored) refl

  refused_lem :
      (nonce now id : ℕ) (code : Str) (u : User) (tables : Tables) (codes : List RecoveryCode)
      → select_id id tables.users ≡ some u
      → Holds u codes
      → spend (hash_recovery_code ext code) now codes ≡ none
      → consume_recovery_code ext nonce now id code (at_rest tables)
        ≡ done false (at_rest (record tables { users = save_row u tables.users }))
  unfolding consume_recovery_code machine Users.mutate_locked enrolled_or_internal Users.find_by_id
      Users.save
  refused_lem nonce now id code u tables codes found held spent =
      rw (found, held.0, held.1, spent) refl

  remaining_lem :
      (id : ℕ) (u : User) (tables : Tables) (codes : List RecoveryCode)
      → select_id id tables.users ≡ some u
      → Holds u codes
      → remaining_recovery_codes ext id (at_rest tables) ≡ done (unused codes) (at_rest tables)
  unfolding remaining_recovery_codes machine Users.find_by_id
  remaining_lem id u tables codes found held = rw (found, held.0, held.1) refl

  -- The account holds codes, and none of this hash is left.
  abbrev SpentOut : (presented : Str) → User → Type 0
  SpentOut presented u =
      (codes : List RecoveryCode) × Holds u codes × (spend presented 0 codes ≡ none)

  -- What is stored can be read back: encryption and JSON are undone by decryption and parsing.
  abbrev pub RoundTrips : Type 0
  RoundTrips =
      (nonce : ℕ) (codes : List RecoveryCode) (enc : Str)
      → encode_recovery_codes ext nonce codes ≡ ok enc
      → decode_recovery_codes ext enc ≡ ok codes

  accept_step-SpentOut :
      (presented : Str) (u : User) (step : Option ℕ)
      → SpentOut presented u
      → SpentOut presented (accept_step u step).1
  unfolding accept_step two_factor_enabled
  accept_step-SpentOut presented u none h = h
  accept_step-SpentOut presented u (some step) h =
      elim (Bool-cases (is_fresh u.two_factor_last_used_at step)) [
        | inl e ↦ rw e h
        | inr e ↦ rw e h
      ]

  spend-SpentOut :
      (presented : Str) (u : User) (nonce now : ℕ) (code enc : Str)
      (codes after : List RecoveryCode)
      → RoundTrips
      → decode_recovery_codes ext (text_of u.two_factor_recovery_codes) ≡ ok codes
      → spend (hash_recovery_code ext code) now codes ≡ some after
      → encode_recovery_codes ext nonce after ≡ ok enc
      → SpentOut presented u
      → SpentOut presented (with_codes u enc)
  unfolding two_factor_enabled
  spend-SpentOut presented u nonce now code enc codes after trips decoded spent stored
        (held, holds, out) =
      let same : held ≡ codes = same_value (sym holds.1 ∙ decoded) in
      (
        after,
        (ground (arith, holds.0), trips nonce after enc stored),
        spend-none presented (hash_recovery_code ext code) now codes after
            (subst (λ cs. spend presented 0 cs ≡ none) same out) spent,
      )

  refused_after :
      (nonce now id : ℕ) (code : Str) (tables : Tables)
      → Row (SpentOut (hash_recovery_code ext code)) id tables
      → (last : Tables) × (consume_recovery_code ext nonce now id code (at_rest tables)
          ≡ done false (at_rest last))
  refused_after nonce now id code tables (u, found, (codes, holds, out)) = (
    record tables { users = save_row u tables.users },
    refused_lem nonce now id code u tables codes found holds
        (spend-anytime (hash_recovery_code ext code) 0 now codes out),
  )

  -- A recovery code that is accepted is counted off, and refused after any further attempts with
  -- login or recovery codes of any account, whose calls may fail. The account is enrolled and
  -- holds codes of distinct hashes, whatever is encoded can be decoded, and no call fails at the
  -- acceptance, the count and the refusal.
  pub consume_recovery_code-once :
      (nonce nonce' now later id : ℕ) (code enc : Str) (u : User) (tables : Tables)
      (codes after : List RecoveryCode) (attempts : List Attempt) (faults : List (Option Str))
      → select_id id tables.users ≡ some u
      → Holds u codes
      → DistinctHashes codes
      → spend (hash_recovery_code ext code) now codes ≡ some after
      → encode_recovery_codes ext nonce after ≡ ok enc
      → RoundTrips
      → (next : Tables) × (last : Tables) × (left : ℕ) × (consume_recovery_code ext nonce now id
            code
            (at_rest tables)
          ≡ done true (at_rest next))
        × (remaining_recovery_codes ext id (at_rest tables) ≡ done (suc left) (at_rest tables))
        × (remaining_recovery_codes ext id (at_rest next) ≡ done left (at_rest next))
        × (consume_recovery_code ext nonce' later id code
              (at_rest (run ext attempts (record { tables = next; faults = faults })).tables)
            ≡ done false (at_rest last))
  unfolding two_factor_enabled
  consume_recovery_code-once nonce nonce' now later id code enc u tables codes after attempts faults
        found held distinct spent stored trips =
      let presented = hash_recovery_code ext code in
      let u' = with_codes u enc in
      let next : Tables = record tables { users = save_row u' tables.users } in
      let found' : select_id id next.users ≡ some u' =
        select_id-save_row id tables.users u u' found refl in
      let held' : Holds u' after = (ground arith, trips nonce after enc stored) in
      let row =
        run-Row ext (SpentOut presented) id (accept_step-SpentOut presented)
          (λ v n t c e cs cs' d s k. spend-SpentOut presented v n t c e cs cs' trips d s k) attempts
          (record { tables = next; faults = faults })
          (u', found', (after, held', spend-spend presented now 0 codes after distinct spent)) in
      let (last, refused) = refused_after nonce' later id code _ row in
      (
        next,
        last,
        unused after,
        spent_lem nonce now id code enc u tables codes after found held spent stored,
        remaining_lem id u tables codes found held
            ∙ ap (λ n. done n (at_rest tables)) (spend-unused presented now codes after spent),
        remaining_lem id u' next after found' held',
        refused,
      )
