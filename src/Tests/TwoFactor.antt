-- ===== src/Tests/TwoFactor.antt =====
-- Two-factor codes and recovery codes at concrete inputs.
use goravel_authkit.Base.{
  ap, ◌∙◌, ℕ, suc, ◌≡◌, refl, true, false, List, [], ◌∷◌, Option, none, some, arith,
}
use goravel_authkit.Text.{Str, lit, str_eq, trim_space, upper_rune}
use goravel_authkit.Errors.{ok}
use goravel_authkit.Store.{Tables, done}
use goravel_authkit.Models.{RecoveryCode, two_factor_enabled}
use goravel_authkit.Tests.Sample.{pack, unpack-pack, sample, ann, tables}
use goravel_authkit.Repositories.Users.{select_id, unless_nil}
use goravel_authkit.Services.TwoFactor.{
  verify_login_code, is_fresh, consume_recovery_code, remaining_recovery_codes, step_start,
  match_totp_step, match_at, encode_recovery_codes, decode_recovery_codes,
}
use goravel_authkit.Models.{User}
use goravel_authkit.Services.TwoFactor.{enable, confirm, disable, generate_recovery_codes}
use goravel_authkit.Services.TwoFactor.Recovery.{generate_codes, draw, char_at, stored_codes}
use goravel_authkit.Services.TwoFactor.Enrolment.{enable-confirm}
use goravel_authkit.Services.TwoFactor.Replay.{verify_login_code-replay}
use goravel_authkit.Services.TwoFactor.Spending.{RoundTrips, consume_recovery_code-once}
use goravel_authkit.Services.TwoFactor.Attempts.{Attempt, run}
use goravel_authkit.Services.TwoFactor.Recovery.{random_recovery_code, spend, hash_recovery_code}
use goravel_authkit.Services.TwoFactor.CodeShape.{
  drawn, WellShaped, random_recovery_code-WellShaped,
}

abbrev noon : ℕ
noon = 100_000_000_000

-- A wrong code, a recovery code of the account, and another account's code.
abbrev guesses : List Attempt
guesses =
    Attempt.login_code noon 1 (lit "654321")
    ∷ Attempt.recovery_code 7 noon 1 (lit "a")
    ∷ Attempt.login_code noon 2 (lit "123456")
    ∷ []

verify_login_code-replay_example :
    (after : Tables) × (last : Tables) × (verify_login_code sample noon 1
        (lit "123456")
        (record { tables = tables; faults = [] })
      ≡ done (is_fresh none 90_000_000_000) (record { tables = after; faults = [] }))
    × (verify_login_code sample noon 1 (lit " 123456") (record {
      tables =
          (run sample guesses
            (record { tables = after; faults = none ∷ some (lit "lost") ∷ [] })).tables;
      faults = [];
    })
        ≡ done false (record { tables = last; faults = [] }))
unfolding select_id unless_nil two_factor_enabled str_eq match_totp_step match_at step_start
    trim_space
verify_login_code-replay_example =
    verify_login_code-replay sample noon noon 1 (lit "123456") (lit " 123456") (lit "123456") ann
      tables 90_000_000_000 90_000_000_000 guesses (none ∷ some (lit "lost") ∷ []) refl refl refl
      refl refl (omega arith)

abbrev codes : List RecoveryCode
codes = record { hash = lit "A"; used_at = none } ∷ record { hash = lit "B"; used_at = none } ∷ []

abbrev spent : List RecoveryCode
spent =
    record { hash = lit "A"; used_at = none } ∷ record { hash = lit "B"; used_at = some 50 } ∷ []

sample_round_trips : RoundTrips sample
unfolding encode_recovery_codes decode_recovery_codes
sample_round_trips nonce codes enc e =
    ap (λ (s : Str). decode_recovery_codes sample s) {x = enc} {y = pack codes} (ground arith)
    ∙ ap ok (unpack-pack codes)

consume_recovery_code-once_example :
    (next : Tables) × (last : Tables) × (left : ℕ) × (consume_recovery_code sample 0 50 1
        (lit "b ")
        (record { tables = tables; faults = [] })
      ≡ done true (record { tables = next; faults = [] }))
    × (remaining_recovery_codes sample 1 (record { tables = tables; faults = [] })
        ≡ done (suc left) (record { tables = tables; faults = [] }))
    × (remaining_recovery_codes sample 1 (record { tables = next; faults = [] })
        ≡ done left (record { tables = next; faults = [] }))
    × (consume_recovery_code sample 1 60 1 (lit "b ") (record {
      tables = (run sample guesses (record { tables = next; faults = [] })).tables;
      faults = [];
    })
        ≡ done false (record { tables = last; faults = [] }))
unfolding select_id unless_nil two_factor_enabled str_eq spend hash_recovery_code
    encode_recovery_codes decode_recovery_codes trim_space upper_rune
consume_recovery_code-once_example =
    consume_recovery_code-once sample 0 1 50 60 1 (lit "b ") (pack spent) ann tables codes spent
      guesses [] refl (refl, refl) ((refl, tt), (tt, tt)) refl refl sample_round_trips

random_recovery_code-WellShaped_example :
    (code : Str) × (rest : List (Option ℕ)) × (random_recovery_code
        (drawn (0 ∷ 1 ∷ 2 ∷ 3 ∷ 4 ∷ 255 ∷ 254 ∷ 100 ∷ 32 ∷ 31 ∷ 7 ∷ []))
      ≡ ok (code, rest))
    × WellShaped 11 0 code
random_recovery_code-WellShaped_example =
    random_recovery_code-WellShaped (0 ∷ 1 ∷ 2 ∷ 3 ∷ 4 ∷ 255 ∷ 254 ∷ 100 ∷ 32 ∷ 31 ∷ 7 ∷ [])
      (
        omega arith,
        (
          omega arith,
          (
            omega arith,
            (
              omega arith,
              (
                omega arith,
                (
                  omega arith,
                  (omega arith, (omega arith, (omega arith, (omega arith, (omega arith, tt))))),
                ),
              ),
            ),
          ),
        ),
      )
      (omega arith)

abbrev newcomer : User
newcomer = record ann {
  two_factor_secret = none;
  two_factor_recovery_codes = none;
  two_factor_confirmed_at = none;
}

abbrev start : Tables
start = record tables { users = newcomer ∷ [] }

abbrev fresh_codes : List Str
fresh_codes = lit "AAAAA-AAAAA" ∷ []

enable-confirm_example :
    (pending : Tables) × (enrolled : Tables) × (last : Tables) × (p : User) × (q : User)
    × (r : User) × (enable sample (lit "authkit") 3 4 1 (record { tables = start; faults = [] })
        ≡ done (lit "authkit", lit "ann@x.org") (record { tables = pending; faults = [] }))
    × (select_id 1 pending.users ≡ some p)
    × (two_factor_enabled p ≡ false)
    × (confirm sample 1 5 50 1
          (drawn (0 ∷ 0 ∷ 0 ∷ 0 ∷ 0 ∷ 0 ∷ 0 ∷ 0 ∷ 0 ∷ 0 ∷ []))
          (lit "authkit")
          (record { tables = pending; faults = [] })
        ≡ done fresh_codes (record { tables = enrolled; faults = [] }))
    × (select_id 1 enrolled.users ≡ some q)
    × (two_factor_enabled q ≡ true)
    × (disable sample 1 (record { tables = enrolled; faults = [] })
        ≡ done tt (record { tables = last; faults = [] }))
    × (select_id 1 last.users ≡ some r)
    × (two_factor_enabled r ≡ false)
unfolding select_id unless_nil two_factor_enabled str_eq generate_recovery_codes generate_codes
    random_recovery_code draw char_at stored_codes hash_recovery_code trim_space upper_rune
enable-confirm_example =
    enable-confirm sample (lit "authkit") (lit "ann@x.org") (lit "authkit") (lit "authkit")
      (pack (stored_codes sample fresh_codes)) (lit "authkit") 3 4 1 5 50 1
      (drawn (0 ∷ 0 ∷ 0 ∷ 0 ∷ 0 ∷ 0 ∷ 0 ∷ 0 ∷ 0 ∷ 0 ∷ [])) fresh_codes newcomer start refl refl refl
      refl refl refl refl refl
