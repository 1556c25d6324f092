-- ===== src/Services/Remember/Rotation.antt =====
-- services/remember.go: what `Resolve` accepts, and two requests that carry one cookie.
use goravel_authkit.Base.{
  ℕ, ◌+◌, ◌≡◌, ◌≢◌, ◌≤◌, ◌⊎◌, inl, inr, refl, sym, ap, ◌∙◌, true, List, [], ◌∷◌, Option, none, some,
  arith, count,
}
use goravel_authkit.Text.{Str, lit}
use goravel_authkit.Text.Laws.{str_eq_iff, str_eq_sound}
use goravel_authkit.Text.Base64.{encode}
use goravel_authkit.Errors.{ok}
use goravel_authkit.Models.{RememberToken}
use goravel_authkit.External.{External}
use goravel_authkit.Store.{Db, Tables, Outcome, done, fail, M, and_then, dropped}
use goravel_authkit.Store.Laws.{
  Ensures, Reads, then-Reads, query-Reads, fail-Reads, done-Reads, lift-joined-Reads, exec_then,
  done_last, fail_last, on_return, branch-Ensures, then_imp,
}
use goravel_authkit.Repositories.Remember
use goravel_authkit.Repositories.Remember.{select_selector, holds, rotate_rows, without_user}
use goravel_authkit.Services.Remember.{
  split_token, random_token, or_invalid, in_grace, rotate, resolve_row, resolve, resolve_parts,
}

-- Why a cookie is good at `now`: its selector has a row that is not expired, and the hash of its
-- validator is the row's, or the row's previous one inside the grace window.
pub record Genuine (ext : External) (cookie : Str) (now : ℕ) (rows : List RememberToken) (user : ℕ)
    : Type 0 where
  pub selector : Str
  pub validator : Str
  pub row : RememberToken
  pub split : split_token cookie ≡ some (selector, validator)
  pub found : select_selector selector rows ≡ some row
  pub owner : user ≡ row.user_id
  pub unexpired : now ≤ row.expires_at
  pub matches :
      (ext.sha256_hex validator ≡ row.validator_hash)
      ⊎ (in_grace row (ext.sha256_hex validator) now ≡ true)

pub or_invalid-Reads :
    (row : Option RememberToken) (db : Db) → Reads (λ t. row ≡ some t) db.tables (or_invalid row db)
or_invalid-Reads none db = fail-Reads
or_invalid-Reads (some t) db = done-Reads refl

abbrev pub Anything : Tables → Type 0
Anything t = Unit {0}

dropped-then :
    {A B : Type 0} (Q : B → Tables → Type 0) (o : Outcome A) (k : M B)
    → ((d : Db) → Ensures Q Anything (k d))
    → Ensures Q Anything (and_then (dropped o) (λ (_ : Unit {0}). k))
unfolding and_then dropped
dropped-then Q (done a d) k h = h d
dropped-then Q (fail e d) k h = h d

module _ (ext : External) (ttl : ℕ) where
  rotate-owner :
      (t : RememberToken) (now : ℕ) (bytes : Option (List ℕ)) (db : Db)
      → Ensures (λ r _. r.0 ≡ t.user_id) Anything (rotate ext ttl t now bytes db)
  unfolding rotate Remember.rotate_validator
  rotate-owner t now bytes db = then-Reads _ (lift-joined-Reads _ _) tt λ v fs _.
      exec_then _ _ _ tt (branch-Ensures _ _ _ _ (λ _. done_last refl) (λ _. done_last refl))

  abbrev Accepted : RememberToken → Str → ℕ → ℕ × Str → Tables → Type 0
  Accepted t presented now r u =
      (r.0 ≡ t.user_id)
      × (now ≤ t.expires_at)
      × ((presented ≡ t.validator_hash) ⊎ (in_grace t presented now ≡ true))

  Accepted-imp :
      (t : RememberToken) (presented : Str) (now : ℕ) (o : Outcome (ℕ × Str))
      → (now ≤ t.expires_at)
      → ((presented ≡ t.validator_hash) ⊎ (in_grace t presented now ≡ true))
      → Ensures (λ r _. r.0 ≡ t.user_id) Anything o
      → Ensures (Accepted t presented now) Anything o
  Accepted-imp t presented now (done r d) h m e = done_last (e.holds, h, m)
  Accepted-imp t presented now (fail x d) h m e = fail_last tt

  resolve_row_sound :
      (t : RememberToken) (presented : Str) (now : ℕ) (bytes : Option (List ℕ)) (db : Db)
      → Ensures (Accepted t presented now) Anything (resolve_row ext ttl t presented now bytes db)
  unfolding resolve_row
  resolve_row_sound t presented now bytes db =
      branch-Ensures _ _ _ _ (λ _. dropped-then _ _ _ λ d. fail_last tt)
        λ live.
          branch-Ensures _ _ _ _
            (λ current.
              Accepted-imp t presented now _ (ground arith) (inl (str_eq_sound _ _ current))
                (rotate-owner t now bytes db))
            λ _.
              branch-Ensures _ _ _ _ (λ grace. done_last (refl, ground arith, inr grace))
                λ _. dropped-then _ _ _ λ d. fail_last tt

  pub resolve_parts_sound :
      (cookie : Str) (parts : Option (Str × Str)) (now : ℕ) (bytes : Option (List ℕ)) (db : Db)
      → split_token cookie ≡ parts
      → Ensures
          (λ r _. Genuine ext cookie now db.tables.remember_tokens r.0)
          Anything
          (resolve_parts ext ttl parts now bytes db)
  unfolding Remember.find_by_selector
  resolve_parts_sound cookie none now bytes db split = fail_last tt
  resolve_parts_sound cookie (some (selector, validator)) now bytes db split =
      then-Reads _ (query-Reads (λ t. select_selector selector t.remember_tokens) db) tt
        λ row fs found. then-Reads _ (or_invalid-Reads row _) tt λ t fs' is_row.
          then_imp _ (resolve_row_sound t (ext.sha256_hex validator) now bytes _) λ r u accepted.
            record {
              selector = selector;
              validator = validator;
              row = t;
              split = split;
              found = sym found ∙ is_row;
              owner = accepted.0;
              unexpired = accepted.1;
              matches = accepted.2;
            }

  -- A cookie that Resolve accepts names a row that is not expired, by its current validator or by
  -- the previous one inside the grace window, and the answer is the owner of that row.
  pub resolve-Genuine :
      (cookie : Str) (now : ℕ) (bytes : Option (List ℕ)) (db : Db) (user : ℕ) (rotated : Str)
      (db' : Db)
      → resolve ext ttl cookie now bytes db ≡ done (user, rotated) db'
      → Genuine ext cookie now db.tables.remember_tokens user
  unfolding resolve
  resolve-Genuine cookie now bytes db user rotated db' e =
      on_return (resolve_parts_sound cookie (split_token cookie) now bytes db refl) e

-- No row holds the old hash once it has been swapped.
rotate_rows-holds :
    (id : ℕ) (old new previous : Str) (at exp : ℕ) (rows : List RememberToken)
    → new ≢ old
    → count (holds id old) (rotate_rows id old new previous at exp rows) ≡ 0
unfolding rotate_rows
rotate_rows-holds id old new previous at exp [] h = refl
rotate_rows-holds id old new previous at exp (r ∷ rows) h =
    ground (arith, rotate_rows-holds id old new previous at exp rows h, str_eq_iff new old)

same_text : {s v : Str} → ok s ≡ ok v → s ≡ v
same_text e = ground arith

module _ (ext : External) (ttl : ℕ) where
  -- After a rotation no row holds the hash that it started from.
  rotate-spent :
      (t : RememberToken) (now : ℕ) (bs : List ℕ) (db : Db)
      → ext.sha256_hex (encode bs) ≢ t.validator_hash
      → Ensures
          (λ _ u. count (holds t.id t.validator_hash) u.remember_tokens ≡ 0)
          Anything
          (rotate ext ttl t now (some bs) db)
  unfolding rotate Remember.rotate_validator random_token
  rotate-spent t now bs db other =
      then-Reads _ (lift-joined-Reads (ok (encode bs)) _) tt λ v fs drawn.
        let spent =
          rotate_rows-holds t.id t.validator_hash (ext.sha256_hex v) t.validator_hash now
            (now + ttl) db.tables.remember_tokens
            (λ e. other (ap ext.sha256_hex (same_text drawn) ∙ e)) in
        exec_then _ _ _ tt (branch-Ensures _ _ _ _ (λ _. done_last spent) (λ _. done_last spent))

  -- Without a row that holds the hash no new cookie is given.
  rotate-lost :
      (t : RememberToken) (now : ℕ) (bytes : Option (List ℕ)) (db : Db)
      → count (holds t.id t.validator_hash) db.tables.remember_tokens ≡ 0
      → Ensures (λ r _. r ≡ (t.user_id, lit "")) Anything (rotate ext ttl t now bytes db)
  unfolding rotate Remember.rotate_validator
  rotate-lost t now bytes db none_left = then-Reads _ (lift-joined-Reads _ _) tt λ v fs drawn.
      exec_then _ _ _ tt
        (branch-Ensures _ _ _ _ (λ _. done_last refl) λ some_rows. absurd (ground arith))

  -- Two requests that have read the same row and present its current validator: the second swap
  -- authenticates the owner too and gets no new cookie, unless the first drew a validator of the
  -- same hash.
  pub rotate-rotate :
      (t : RememberToken) (now now' : ℕ) (bs : List ℕ) (bytes : Option (List ℕ)) (db db' db'' : Db)
      (r r' : ℕ × Str)
      → ext.sha256_hex (encode bs) ≢ t.validator_hash
      → rotate ext ttl t now (some bs) db ≡ done r db'
      → rotate ext ttl t now' bytes db' ≡ done r' db''
      → r' ≡ (t.user_id, lit "")
  rotate-rotate t now now' bs bytes db db' db'' r r' other first second =
      on_return (rotate-lost t now' bytes db' (on_return (rotate-spent t now bs db other) first))
        second
