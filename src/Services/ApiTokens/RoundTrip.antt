-- ===== src/Services/ApiTokens/RoundTrip.antt =====
-- services/api_tokens.go: proofs about a token from its storage to its use.
use goravel_authkit.Base.{
  ℕ, ◌≡◌, ◌≢◌, ◌<◌, refl, true, false, ◌&&◌, List, [], ◌∷◌, ◌++◌, none, some, leb, arith, ◌==◌,
  length, All, inr, rewrite_where,
}
use goravel_authkit.Text.{Str, str_eq}
use goravel_authkit.Text.Laws.{str_eq_refl}
use goravel_authkit.Models.{User, ApiToken, active}
use goravel_authkit.External.{External}
use goravel_authkit.Store.{Db, Tables, done, machine}
use goravel_authkit.Text.{has_prefix, trim_prefix, trim_space, drop_prefix}
use goravel_authkit.Text.Laws.{cut-append}
use goravel_authkit.Text.Base64.{encode, Bytes, decode-encode, encode-plain}
use goravel_authkit.Repositories.ApiTokens
use goravel_authkit.Repositories.ApiTokens.{select_selector, unless_nil, is_stale_use}
use goravel_authkit.Services.ApiTokens.{
  Config, IssueCommand, store_token, resolve, api_token_last_used_interval,
}
use goravel_authkit.Services.ApiTokens.Limit.{live}
use goravel_authkit.Services.ApiTokens.Plaintext.{
  split_api_token, join_api_token, random_api_token_part,
}

-- A plaintext is split where it was joined: a selector of 12 bytes, and a validator of 32.
pub split_api_token-join_api_token :
    (selector validator : List ℕ)
    → Bytes selector
    → Bytes validator
    → length selector ≡ 12
    → length validator ≡ 32
    → split_api_token (join_api_token (encode selector) (encode validator))
      ≡ some (encode selector, encode validator)
unfolding split_api_token join_api_token has_prefix trim_prefix drop_prefix
split_api_token-join_api_token selector validator s v n m =
    rw
      (
        cut-append (encode selector) (encode validator) b'.'
            (encode-plain selector b'.' s (inr refl)),
        encode-plain validator b'.' v (inr refl),
        decode-encode selector s,
        decode-encode validator v,
        n,
        m,
      )
      refl

-- No row has the selector.
abbrev pub NewSelector : Str → List ApiToken → Type 0
NewSelector selector rows = All (λ (r : ApiToken). str_eq r.selector selector ≡ false) rows

select-appended :
    (selector : Str) (rows : List ApiToken) (t : ApiToken)
    → NewSelector selector rows
    → str_eq t.selector selector ≡ true
    → t.id ≢ 0
    → select_selector selector (rows ++ t ∷ []) ≡ some t
unfolding select_selector unless_nil
select-appended selector [] t h e i = ground arith
select-appended selector (r ∷ rows) t h e i =
    ground (arith, select-appended selector rows t h.1 e i)

module _ (ext : External) (c : Config) where
  abbrev at_rest : Tables → Db
  at_rest tables = record { tables = tables; faults = [] }

  -- The token that is stored for these bytes.
  abbrev pub token_of :
      (id now user : ℕ)
      → (cmd : IssueCommand) → (scopes : List Str) → (selector validator : Str) → ApiToken
  token_of id now user cmd scopes selector validator = record {
    id = id;
    user_id = user;
    name = trim_space cmd.name;
    selector = selector;
    validator_hash = ext.sha256_hex validator;
    scopes = scopes;
    expires_at = cmd.expires_at;
    last_used_at = none;
    revoked_at = none;
    created_at = now;
  }

  store_lem :
      (u : User) (cmd : IssueCommand) (scopes : List Str) (id now verify_now : ℕ) (s v : List ℕ)
      (tables : Tables)
      → leb c.max_per_user (live u.id now tables.api_tokens) ≡ false
      → store_token ext c u cmd scopes
          (record {
            id = id;
            now = now;
            verify_now = verify_now;
            selector_bytes = some s;
            validator_bytes = some v;
          })
          (at_rest tables)
        ≡ done
            (
              token_of id now u.id cmd scopes (encode s) (encode v),
              join_api_token (encode s) (encode v),
            )
            (at_rest (record tables {
              api_tokens =
                  tables.api_tokens ++ token_of id now u.id cmd scopes (encode s) (encode v) ∷ [];
            }))
  unfolding store_token machine random_api_token_part ApiTokens.create
      ApiTokens.count_active_by_user
  store_lem u cmd scopes id now verify_now s v tables room = rw room refl

  resolve_lem :
      (plaintext : Str) (parts : Str × Str) (checked_at now : ℕ) (tables : Tables) (t : ApiToken)
      → split_api_token plaintext ≡ some parts
      → select_selector parts.0 tables.api_tokens ≡ some t
      → (str_eq (ext.sha256_hex parts.1) t.validator_hash && active t checked_at) ≡ true
      → (after : Tables) × (resolve ext c plaintext checked_at now (at_rest tables)
          ≡ done (record t { last_used_at = some now }) (at_rest after))
  unfolding resolve machine ApiTokens.find_by_selector ApiTokens.touch_last_used
  resolve_lem plaintext parts checked_at now tables t split found good = (
    record tables {
      api_tokens =
          rewrite_where (λ r. r.id == t.id && is_stale_use api_token_last_used_interval now r)
            (λ r. record r { last_used_at = some now }) tables.api_tokens;
    },
    rw (resolve, split, found, good) refl,
  )

  -- The plaintext of a token that is stored is accepted until the token expires, with the user
  -- and the scopes of the row. The user is below the limit, id and selector are new, and no call
  -- fails.
  pub store_token-resolve :
      (u : User) (cmd : IssueCommand) (scopes : List Str) (id now verify_now checked_at later : ℕ)
      (s v : List ℕ) (tables : Tables)
      → leb c.max_per_user (live u.id now tables.api_tokens) ≡ false
      → Bytes s
      → Bytes v
      → length s ≡ 12
      → length v ≡ 32
      → id ≢ 0
      → NewSelector (encode s) tables.api_tokens
      → checked_at < cmd.expires_at
      → (token : ApiToken) × (plaintext : Str) × (stored : Tables) × (last : Tables) × (store_token
            ext c u cmd scopes
            (record {
              id = id;
              now = now;
              verify_now = verify_now;
              selector_bytes = some s;
              validator_bytes = some v;
            })
            (at_rest tables)
          ≡ done (token, plaintext) (at_rest stored))
        × (resolve ext c plaintext checked_at later (at_rest stored)
            ≡ done (record token { last_used_at = some later }) (at_rest last))
        × (token.user_id ≡ u.id)
        × (token.scopes ≡ scopes)
  unfolding active
  store_token-resolve u cmd scopes id now verify_now checked_at later s v tables room sb vb n m i
        new live =
      let t = token_of id now u.id cmd scopes (encode s) (encode v) in
      let stored : Tables = record tables { api_tokens = tables.api_tokens ++ t ∷ [] } in
      let plaintext = join_api_token (encode s) (encode v) in
      let (last, resolved) =
        resolve_lem plaintext (encode s, encode v) checked_at later stored t
          (split_api_token-join_api_token s v sb vb n m)
          (select-appended (encode s) tables.api_tokens t new (str_eq_refl (encode s)) i)
          (ground (arith, str_eq_refl (ext.sha256_hex (encode v)))) in
      (
        t,
        plaintext,
        stored,
        last,
        store_lem u cmd scopes id now verify_now s v tables room,
        resolved,
        refl,
        refl,
      )
