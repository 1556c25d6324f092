-- ===== src/Services/Remember/Theft.antt =====
-- services/remember.go: what `Resolve` does on a validator that is out of date.
use goravel_authkit.Base.{
  ℕ, ◌+◌, ◌≡◌, ◌≢◌, ◌≤◌, ◌<◌, ◌⊎◌, inl, inr, refl, Bool-cases, false, List, [], Option, none, some,
  arith, ltb, ◌==◌, keep, All,
}
use goravel_authkit.Text.{Str, str_eq}
use goravel_authkit.Text.Laws.{str_eq_sound}
use goravel_authkit.Errors.{invalid_remember_token}
use goravel_authkit.Models.{RememberToken}
use goravel_authkit.External.{External}
use goravel_authkit.Store.{Db, Tables, fail, machine}
use goravel_authkit.Store.Laws.{Ensures, then_imp}
use goravel_authkit.Repositories.Remember
use goravel_authkit.Repositories.Remember.{select_selector, without_user}
use goravel_authkit.Repositories.Remember.Laws.{without-user, without-other, select_selector-other}
use goravel_authkit.Services.Remember.{
  split_token, in_grace, resolve_row, resolve, remember_grace_window,
}
use goravel_authkit.Services.Remember.Rotation.{Anything, resolve_parts_sound}

-- The last rotation, if there was one, is longer ago than the grace window.
abbrev pub IsPastGrace : (now : ℕ) → Option ℕ → Type 0
IsPastGrace now none = Unit
IsPastGrace now (some at) = at + remember_grace_window < now

-- The hash is not the row's, and not its previous one either, unless that one is out of grace.
abbrev pub IsStale : RememberToken → (presented : Str) → (now : ℕ) → Type 0
IsStale t presented now =
    (presented ≢ t.validator_hash)
    × ((presented ≢ t.previous_validator_hash) ⊎ IsPastGrace now t.rotated_at)

differ : (s t : Str) → s ≢ t → str_eq s t ≡ false
differ s t ne = elim (Bool-cases (str_eq s t)) [
  | inl e ↦ absurd (ne (str_eq_sound s t e))
  | inr e ↦ e
]

late :
    (t : RememberToken) (presented : Str) (now : ℕ) (at : Option ℕ)
    → t.rotated_at ≡ at
    → IsPastGrace now at
    → in_grace t presented now ≡ false
unfolding in_grace
late t presented now none e h = rw e (ground arith)
late t presented now (some at) e h = rw e (ground arith)

IsStale-in_grace :
    (t : RememberToken) (presented : Str) (now : ℕ)
    → IsStale t presented now
    → in_grace t presented now ≡ false
unfolding in_grace
IsStale-in_grace t presented now (other, inl ne) =
    let e : str_eq presented t.previous_validator_hash ≡ false = differ _ _ ne in ground arith
IsStale-in_grace t presented now (other, inr h) = late t presented now t.rotated_at refl h

not_expired : (t : RememberToken) (now : ℕ) → now ≤ t.expires_at → ltb t.expires_at now ≡ false
not_expired t now h = ground arith

module _ (ext : External) (ttl : ℕ) where
  -- Without rows of the user no cookie is good for that user.
  resolve-other :
      (user : ℕ) (cookie : Str) (now : ℕ) (bytes : Option (List ℕ)) (db : Db)
      → All (λ (r : RememberToken). r.user_id ≢ user) db.tables.remember_tokens
      → Ensures (λ r _. r.0 ≢ user) Anything (resolve ext ttl cookie now bytes db)
  unfolding resolve
  resolve-other user cookie now bytes db h =
      then_imp _ (resolve_parts_sound ext ttl cookie (split_token cookie) now bytes db refl)
        λ r u g same.
          select_selector-other user g.selector db.tables.remember_tokens g.row h g.found (cc)

  -- Where no call fails, a cookie for a row that is not expired, whose validator is not the
  -- current one, nor the previous one unless the grace window has passed, is refused. No remember
  -- token of the owner of the row is then left, those of every other user are as before, and the
  -- next request, whatever its cookie and whether its calls fail or not, is not signed in as the
  -- owner.
  pub resolve-theft :
      (cookie selector validator : Str) (now : ℕ) (bytes : Option (List ℕ)) (tables : Tables)
      (t : RememberToken) (other : ℕ) (cookie' : Str) (later : ℕ) (bytes' : Option (List ℕ))
      (faults : List (Option Str))
      → split_token cookie ≡ some (selector, validator)
      → select_selector selector tables.remember_tokens ≡ some t
      → now ≤ t.expires_at
      → IsStale t (ext.sha256_hex validator) now
      → other ≢ t.user_id
      → (after : Tables) × (resolve ext ttl cookie now bytes
            (record { tables = tables; faults = [] })
          ≡ fail invalid_remember_token (record { tables = after; faults = [] }))
        × All (λ (r : RememberToken). r.user_id ≢ t.user_id) after.remember_tokens
        × (keep (λ r. r.user_id == other) after.remember_tokens
            ≡ keep (λ r. r.user_id == other) tables.remember_tokens)
        × Ensures
            (λ r _. r.0 ≢ t.user_id)
            Anything
            (resolve ext ttl cookie' later bytes' (record { tables = after; faults = faults }))
  unfolding resolve resolve_row machine Remember.find_by_selector Remember.delete_by_user
  resolve-theft cookie selector validator now bytes tables t other cookie' later bytes' faults split
        found live stale ne =
      let gone = without-user t.user_id tables.remember_tokens in
      let after : Tables = record tables {
        remember_tokens = without_user t.user_id tables.remember_tokens;
      } in
      (
        after,
        rw (
          split,
          resolve,
          found,
          not_expired t now live,
          differ _ _ stale.0,
          IsStale-in_grace t (ext.sha256_hex validator) now stale,
        ),
        gone,
        without-other t.user_id other tables.remember_tokens ne,
        resolve-other t.user_id cookie' later bytes' (record { tables = after; faults = faults })
            gone,
      )
