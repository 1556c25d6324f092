-- ===== src/Services/Remember/RoundTrip.antt =====
-- services/remember.go: proofs about a cookie from its issue to its use.
use goravel_authkit.Base.{
  ℕ, ◌+◌, ◌≡◌, ◌≢◌, ◌≤◌, inl, refl, true, false, List, [], ◌∷◌, ◌++◌, none, some, arith, ◌==◌, All,
  ltb, count,
}
use goravel_authkit.Text.{Str, lit, str_eq}
use goravel_authkit.Text.Laws.{str_eq_refl}
use goravel_authkit.Text.Base64.{encode, Bytes, encode-plain, encode-nonempty}
use goravel_authkit.Models.{RememberToken}
use goravel_authkit.External.{External}
use goravel_authkit.Store.{Db, Tables, done, machine}
use goravel_authkit.Repositories.Remember
use goravel_authkit.Repositories.Remember.{select_selector, holds, rotate_rows, unless_nil}
use goravel_authkit.Services.Remember.{
  split_token, random_token, rotate, resolve_row, resolve, join_token, issue,
}
use goravel_authkit.Services.Remember.Tokens.{split_token-join_token}

-- No row has the selector.
abbrev pub NewSelector : Str → List RememberToken → Type 0
NewSelector selector rows = All (λ (r : RememberToken). str_eq r.selector selector ≡ false) rows

-- No row has the id.
abbrev pub NewId : ℕ → List RememberToken → Type 0
NewId id rows = All (λ (r : RememberToken). r.id ≢ id) rows

select-appended :
    (selector : Str) (rows : List RememberToken) (t : RememberToken)
    → NewSelector selector rows
    → str_eq t.selector selector ≡ true
    → t.id ≢ 0
    → select_selector selector (rows ++ t ∷ []) ≡ some t
unfolding select_selector
select-appended selector [] t h e i = ground arith
select-appended selector (r ∷ rows) t h e i =
    ground (arith, select-appended selector rows t h.1 e i)

count-appended :
    (rows : List RememberToken) (t : RememberToken)
    → NewId t.id rows
    → count (holds t.id t.validator_hash) (rows ++ t ∷ []) ≡ 1
count-appended [] t h = ground (arith, str_eq_refl t.validator_hash)
count-appended (r ∷ rows) t h = ground (arith, count-appended rows t h.1)

module _ (ext : External) (ttl : ℕ) where
  abbrev row_of : (id now user : ℕ) → (selector validator : Str) → RememberToken
  row_of id now user selector validator = record {
    id = id;
    user_id = user;
    selector = selector;
    validator_hash = ext.sha256_hex validator;
    previous_validator_hash = lit "";
    rotated_at = none;
    expires_at = now + ttl;
  }

  issue_lem :
      (id now user : ℕ) (sb vb : List ℕ) (tables : Tables)
      → issue ext ttl id now (some sb) (some vb) user (record { tables = tables; faults = [] })
        ≡ done (join_token (encode sb) (encode vb)) (record {
          tables = record tables {
            remember_tokens =
                tables.remember_tokens ++ row_of id now user (encode sb) (encode vb) ∷ [];
          };
          faults = [];
        })
  unfolding issue machine random_token Remember.create
  issue_lem id now user sb vb tables = refl

  -- A row that the selector finds, that is not expired and holds the presented validator, is
  -- rotated.
  resolve_current :
      (cookie selector validator : Str) (now : ℕ) (nb : List ℕ) (tables : Tables)
      (t : RememberToken)
      → split_token cookie ≡ some (selector, validator)
      → select_selector selector tables.remember_tokens ≡ some t
      → ltb t.expires_at now ≡ false
      → str_eq (ext.sha256_hex validator) t.validator_hash ≡ true
      → (count (holds t.id t.validator_hash) tables.remember_tokens == 0) ≡ false
      → (db : Db) × (resolve ext ttl cookie now (some nb) (record { tables = tables; faults = [] })
          ≡ done (t.user_id, join_token t.selector (encode nb)) db)
  unfolding resolve resolve_row rotate machine random_token Remember.find_by_selector
      Remember.rotate_validator
  resolve_current cookie selector validator now nb tables t split found live current held = (
    record {
      tables = record tables {
        remember_tokens =
            rotate_rows t.id t.validator_hash (ext.sha256_hex (encode nb)) t.validator_hash now
              (now + ttl) tables.remember_tokens;
      };
      faults = [];
    },
    rw (split, found, live, current, held),
  )

  -- A cookie that Issue returns is accepted until it expires, for the user that it was issued to,
  -- and replaced by a cookie of the same selector, if id and selector were new and no call fails.
  pub issue-resolve :
      (id now later user : ℕ) (s v : ℕ) (ss vs nb : List ℕ) (tables : Tables)
      → Bytes (s ∷ ss)
      → id ≢ 0
      → NewId id tables.remember_tokens
      → NewSelector (encode (s ∷ ss)) tables.remember_tokens
      → later ≤ now + ttl
      → (db : Db) × (db' : Db) × (issue ext ttl id now
            (some (s ∷ ss))
            (some (v ∷ vs))
            user
            (record { tables = tables; faults = [] })
          ≡ done (join_token (encode (s ∷ ss)) (encode (v ∷ vs))) db)
        × (resolve ext ttl (join_token (encode (s ∷ ss)) (encode (v ∷ vs))) later (some nb) db
            ≡ done (user, join_token (encode (s ∷ ss)) (encode nb)) db')
  issue-resolve id now later user s v ss vs nb tables bytes i new_id new_selector live =
      let selector = encode (s ∷ ss) in
      let validator = encode (v ∷ vs) in
      let t = row_of id now user selector validator in
      let after : Tables = record tables { remember_tokens = tables.remember_tokens ++ t ∷ [] } in
      let (db', resolved) =
        resolve_current (join_token selector validator) selector validator later nb after t
          (split_token-join_token selector validator (encode-plain (s ∷ ss) b':' bytes (inl refl))
            (encode-nonempty s ss) (encode-nonempty v vs))
          (select-appended selector tables.remember_tokens t new_selector (str_eq_refl selector) i)
          (ground arith) (str_eq_refl (ext.sha256_hex validator))
          (ground (arith, count-appended tables.remember_tokens t new_id)) in
      (
        record { tables = after; faults = [] },
        db',
        issue_lem id now user (s ∷ ss) (v ∷ vs) tables,
        resolved,
      )
