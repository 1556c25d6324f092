-- ===== src/Services/ApiTokens/Revocation.antt =====
-- services/api_tokens.go: proofs about accepted, revoked and pruned tokens.
use goravel_authkit.Base.{
  ℕ, ◌≡◌, ◌≢◌, refl, ap, sym, ◌∙◌, true, false, not, ◌&&◌, List, [], ◌∷◌, Option, none, some, arith,
  ◌==◌, All, inl, inr, first_of_All, Option-cases, count, keep,
}
use goravel_authkit.Text.{Str, str_eq}
use goravel_authkit.Text.Laws.{str_eq_sound}
use goravel_authkit.Models.{ApiToken, active}
use goravel_authkit.External.{External}
use goravel_authkit.Store.{Db, Tables, done, machine, tables_of}
use goravel_authkit.Store.Laws.{
  Ensures, Reads, then-Reads, query-Reads, check-Reads, fail-Reads, done-Reads, exec_then,
  exec_last, done_last, at_end, then_imp, fail_last,
}
use goravel_authkit.Repositories.ApiTokens
use goravel_authkit.Repositories.ApiTokens.{
  select_selector, unless_nil, revoke_rows, unrevoked_of, is_prunable,
}
use goravel_authkit.Services.ApiTokens.{
  Config, resolve, or_invalid, revoke_all, prune, api_token_prune_retention,
}
use goravel_authkit.Services.ApiTokens.Plaintext.{split_api_token}

or_invalid-Reads :
    (row : Option ApiToken) (db : Db) → Reads (λ t. row ≡ some t) db.tables (or_invalid row db)
or_invalid-Reads none db = fail-Reads
or_invalid-Reads (some t) db = done-Reads refl

-- The row that a plaintext stands for: of its selector, with the hash of its validator, neither
-- revoked nor expired.
abbrev pub Accepted : External → Str → ℕ → List ApiToken → ApiToken → Type 0
Accepted ext plaintext now rows t =
    (parts : Str × Str) × (split_api_token plaintext ≡ some parts)
    × (select_selector parts.0 rows ≡ some t)
    × (t.validator_hash ≡ ext.sha256_hex parts.1)
    × (active t now ≡ true)

-- A token that Resolve returns is the row of the selector in the plaintext, with the hash of its
-- validator, neither revoked nor expired; the accounts stay as they are.
pub resolve-genuine :
    (ext : External) (c : Config) (plaintext : Str) (checked_at now : ℕ) (db : Db)
    → Ensures
        (λ token t.
          ((row : ApiToken) × Accepted ext plaintext checked_at db.tables.api_tokens row
            × (token ≡ record row { last_used_at = some now }))
          × (t.users ≡ db.tables.users))
        (λ t. t ≡ db.tables)
        (resolve ext c plaintext checked_at now db)
unfolding resolve ApiTokens.find_by_selector ApiTokens.touch_last_used
resolve-genuine ext c plaintext checked_at now db =
    elim (Option-cases (split_api_token plaintext)) [
      | inl e ↦ rw (resolve, e) (fail_last refl)
      | inr (parts, e) ↦
          rw (resolve, e)
            (then-Reads _ (query-Reads (λ t. select_selector parts.0 t.api_tokens) db) refl
              λ row fs found. then-Reads _ (or_invalid-Reads row _) refl λ t fs same.
                then-Reads _ (check-Reads _ _ _) refl λ _ fs good. exec_then _ _ _ refl (
                  done_last (
                    (
                      t,
                      (
                        parts,
                        refl,
                        sym found ∙ same,
                        sym (str_eq_sound (ext.sha256_hex parts.1) t.validator_hash (ground arith)),
                        ground arith,
                      ),
                      refl,
                    ),
                    refl,
                  )))
    ]

-- No row of the table is an unrevoked one of the user.
abbrev pub AllRevoked : ℕ → List ApiToken → Type 0
AllRevoked user rows = All (λ (r : ApiToken). unrevoked_of user r ≡ false) rows

pub revoke_rows-AllRevoked :
    (user now : ℕ) (rows : List ApiToken) → AllRevoked user (revoke_rows user now rows)
unfolding revoke_rows
revoke_rows-AllRevoked user now [] = tt
revoke_rows-AllRevoked user now (r ∷ rows) = (ground arith, revoke_rows-AllRevoked user now rows)

unless_nil-some : (o : Option ApiToken) (t : ApiToken) → unless_nil o ≡ some t → o ≡ some t
unfolding unless_nil
unless_nil-some o t e = ground arith

select-AllRevoked :
    (user : ℕ) (selector : Str) (rows : List ApiToken) (t : ApiToken)
    → AllRevoked user rows
    → select_selector selector rows ≡ some t
    → unrevoked_of user t ≡ false
unfolding select_selector
select-AllRevoked user selector rows t h e =
    (first_of_All _ (λ r. str_eq r.selector selector) rows h (unless_nil-some _ t e)).0

active-owner :
    (user at : ℕ) (t : ApiToken)
    → unrevoked_of user t ≡ false
    → active t at ≡ true
    → t.user_id ≢ user
unfolding active
active-owner user at t h a = ground arith

-- After RevokeAll no token of that user is accepted, whatever the plaintext and the time.
pub revoke_all-resolve :
    (ext : External) (c : Config) (user now checked_at later : ℕ) (plaintext : Str)
    (tables : Tables)
    → (after : Tables) × (revoke_all user now (record { tables = tables; faults = [] })
        ≡ done tt (record { tables = after; faults = [] }))
      × Ensures
          (λ (token : ApiToken) _. token.user_id ≢ user)
          (λ t. t ≡ after)
          (resolve ext c plaintext checked_at later (record { tables = after; faults = [] }))
unfolding revoke_all machine ApiTokens.revoke_all_by_user
revoke_all-resolve ext c user now checked_at later plaintext tables =
    let after : Tables = record tables { api_tokens = revoke_rows user now tables.api_tokens } in
    (
      after,
      refl,
      then_imp _
          (resolve-genuine ext c plaintext checked_at later
            (record { tables = after; faults = [] }))
          λ token t h.
            let (row, (parts, split, found, hash, alive), same) = h.0 in
            let foreign : row.user_id ≢ user =
              active-owner user checked_at row
                (select-AllRevoked user parts.0 after.api_tokens row
                  (revoke_rows-AllRevoked user now tables.api_tokens) found)
                alive in
            λ e. foreign (sym (ap (λ (x : ApiToken). x.user_id) same) ∙ e),
    )

kept-active :
    (now id : ℕ) (rows : List ApiToken)
    → count
        (λ r. r.id == id && active r now)
        (keep (λ r. not (is_prunable api_token_prune_retention now r)) rows)
      ≡ count (λ r. r.id == id && active r now) rows
unfolding active
kept-active now id [] = refl
kept-active now id (r ∷ rows) = elim (Option-cases r.revoked_at) [
  | inl e ↦ ground (arith, kept-active now id rows)
  | inr (at, e) ↦ ground (arith, kept-active now id rows)
]

-- Prune keeps every active token of each id, whether its call succeeds or not.
pub prune-active :
    (now id : ℕ) (db : Db)
    → count (λ r. r.id == id && active r now) (tables_of (prune now db)).api_tokens
      ≡ count (λ r. r.id == id && active r now) db.tables.api_tokens
unfolding prune ApiTokens.delete_prunable
prune-active now id db =
    at_end
      {P = λ u.
        count (λ r. r.id == id && active r now) u.api_tokens
        ≡ count (λ r. r.id == id && active r now) db.tables.api_tokens}
      _ (exec_last _ db refl (kept-active now id db.tables.api_tokens))
