-- ===== src/Tests/Cookies.antt =====
-- Remember-me cookies at concrete inputs.
use goravel_authkit.Base.{inr, ◌≢◌, ◌==◌, keep, All, ℕ, ◌≡◌, refl, [], ◌∷◌, none, some, arith}
use goravel_authkit.Text.{Str, lit, str_eq, cut}
use goravel_authkit.Store.{Db, Tables, done, fail, machine}
use goravel_authkit.Models.{RememberToken}
use goravel_authkit.Text.Base64.{encode, char_of}
use goravel_authkit.Errors.{invalid_remember_token}
use goravel_authkit.Tests.Sample.{sample, tables}
use goravel_authkit.Repositories.Remember
use goravel_authkit.Repositories.Remember.{select_selector, unless_nil, without_user, rotate_rows}
use goravel_authkit.Services.Remember.{
  issue, resolve, rotate, join_token, split_token, resolve_row, random_token,
}
use goravel_authkit.Services.Remember.RoundTrip.{issue-resolve}
use goravel_authkit.Services.Remember.Rotation.{Genuine, Anything, resolve-Genuine, rotate-rotate}
use goravel_authkit.Services.Remember.Theft.{resolve-theft}
use goravel_authkit.Store.Laws.{Ensures}

issue-resolve_example :
    (after : Db) × (last : Db) × (issue sample 1000 1 50
        (some (1 ∷ []))
        (some (2 ∷ []))
        2
        (record { tables = tables; faults = [] })
      ≡ done (join_token (encode (1 ∷ [])) (encode (2 ∷ []))) after)
    × (resolve sample 1000 (join_token (encode (1 ∷ [])) (encode (2 ∷ []))) 60 (some (3 ∷ [])) after
        ≡ done (2, join_token (encode (1 ∷ [])) (encode (3 ∷ []))) last)
issue-resolve_example =
    issue-resolve sample 1000 1 50 60 2 1 2 [] [] (3 ∷ []) tables (omega arith, tt)
      (λ e. omega arith) tt tt (omega arith)

abbrev row : RememberToken
row = record {
  id = 1;
  user_id = 2;
  selector = lit "sel";
  validator_hash = lit "val";
  previous_validator_hash = lit "";
  rotated_at = none;
  expires_at = 1000;
}

abbrev kept : Tables
kept = record tables { remember_tokens = row ∷ [] }

abbrev kept_db : Db
kept_db = record { tables = kept; faults = [] }

resolve-Genuine_example : Genuine sample (lit "sel:val") 60 (row ∷ []) 2
unfolding resolve resolve_row rotate split_token machine random_token encode char_of str_eq cut
    Remember.find_by_selector Remember.rotate_validator select_selector unless_nil rotate_rows
    join_token
resolve-Genuine_example =
    resolve-Genuine sample 100 (lit "sel:val") 60 (some (3 ∷ [])) kept_db 2 (lit "sel:Aw")
      (record {
        tables = record kept {
          remember_tokens =
              record row {
                validator_hash = lit "Aw";
                previous_validator_hash = lit "val";
                rotated_at = some 60;
                expires_at = 160;
              }
              ∷ [];
        };
        faults = [];
      })
      refl

abbrev swapped : Db
swapped = record {
  tables = record kept {
    remember_tokens =
        record row {
          validator_hash = lit "Aw";
          previous_validator_hash = lit "val";
          rotated_at = some 60;
          expires_at = 160;
        }
        ∷ [];
  };
  faults = [];
}

-- The second of two swaps answers for the owner, without a cookie.
rotate-rotate_example : ◌≡◌ {A = ℕ × Str} (2, lit "") (2, lit "")
unfolding rotate machine random_token encode char_of str_eq Remember.rotate_validator rotate_rows
    join_token
rotate-rotate_example =
    rotate-rotate sample 100 row 60 61 (3 ∷ []) (some (4 ∷ [])) kept_db swapped swapped
      (2, lit "sel:Aw") (2, lit "") (λ e. ground arith) refl refl

-- Beside the row of the owner there is one of another user.
abbrev shared_rows : Tables
shared_rows = record tables {
  remember_tokens = row ∷ record row { id = 2; user_id = 3; selector = lit "other" } ∷ [];
}

-- The thief's cookie, and after it the owner's own.
resolve-theft_example :
    (after : Tables) × (resolve sample 100
        (lit "sel:old")
        60
        (some (3 ∷ []))
        (record { tables = shared_rows; faults = [] })
      ≡ fail invalid_remember_token (record { tables = after; faults = [] }))
    × All (λ (r : RememberToken). r.user_id ≢ 2) after.remember_tokens
    × (keep (λ r. r.user_id == 3) after.remember_tokens
        ≡ keep (λ r. r.user_id == 3) shared_rows.remember_tokens)
    × Ensures
        (λ r _. r.0 ≢ 2)
        Anything
        (resolve sample 100 (lit "sel:val") 61 none (record { tables = after; faults = [] }))
unfolding split_token cut str_eq select_selector unless_nil
resolve-theft_example =
    resolve-theft sample 100 (lit "sel:old") (lit "sel") (lit "old") 60 (some (3 ∷ [])) shared_rows
      row 3 (lit "sel:val") 61 none [] refl refl (omega arith) ((λ e. ground arith), inr tt)
      (λ e. omega arith)
