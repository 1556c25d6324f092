-- ===== src/Services/ApiTokens/Limit.antt =====
-- services/api_tokens.go: how many tokens an account may hold.
use goravel_authkit.Base.{
  ℕ, suc, ◌≡◌, ◌≢◌, ◌≤◌, ◌<◌, refl, ap, List, [], ◌∷◌, ◌++◌, Option, none, some, arith, ◌==◌,
  Bool-cases, inl, inr, count,
}
use goravel_authkit.Text.{Str}
use goravel_authkit.Models.{User, ApiToken}
use goravel_authkit.External.{External}
use goravel_authkit.Store.{Db, Tables, Outcome, done, fail, tables_of, and_then}
use goravel_authkit.Store.Laws.{
  Ensures, Reads, then-Reads, Reads-then, branch-Ensures, query-Reads, check-Reads, fail-Reads,
  done-Reads, lift-Reads, lift-joined-Reads, exec_then, done_last, at_end, then-Ensures, fail_last,
}
use goravel_authkit.Store.Calls.{query-Ensures, exec-Ensures, check-Ensures, lift-Ensures}
use goravel_authkit.Repositories.Users
use goravel_authkit.Repositories.ApiTokens
use goravel_authkit.Repositories.ApiTokens.{is_live_of}
use goravel_authkit.Services.TwoFactor.{verify_login_code, enrolled_or_internal}
use goravel_authkit.Services.Impersonation.{Principal, Policy}
use goravel_authkit.Services.ApiTokens.{
  Config, IssueCommand, Draws, store_token, issue, live_user, prove_authority, prove_owner,
  authorize_by, policy_of,
}

-- The tokens of a user that are neither revoked nor expired.
abbrev pub live : ℕ → ℕ → List ApiToken → ℕ
live user now rows = count (is_live_of user now) rows

live-append :
    (user now : ℕ) (rows : List ApiToken) (t : ApiToken)
    → live user now (rows ++ t ∷ []) ≤ suc (live user now rows)
live-append user now [] t = ground arith
live-append user now (r ∷ rows) t = ground (arith, live-append user now rows t)

live-other :
    (user now : ℕ) (rows : List ApiToken) (t : ApiToken)
    → t.user_id ≢ user
    → live user now (rows ++ t ∷ []) ≡ live user now rows
live-other user now [] t ne = ground arith
live-other user now (r ∷ rows) t ne = ground (arith, live-other user now rows t ne)

append-within :
    (user now max : ℕ) (rows : List ApiToken) (t : ApiToken)
    → live user now rows ≤ max
    → live t.user_id now rows < max
    → live user now (rows ++ t ∷ []) ≤ max
append-within user now max rows t h room = elim (Bool-cases (t.user_id == user)) [
  | inl same ↦
      let equal : t.user_id ≡ user = ground arith in
      let own = ap (λ x. live x now rows) equal in omega (arith, live-append user now rows t)
  | inr other ↦ omega (arith, live-other user now rows t (ground arith))
]

live_user-Reads :
    (row : Option User) (db : Db) → Reads (λ u. row ≡ some u) db.tables (live_user row db)
live_user-Reads none db = fail-Reads
live_user-Reads (some u) db = Reads-then _ (check-Reads _ _ _) λ _ fs _. done-Reads refl

enrolled-Ensures :
    {A : Type 0} {Q : A → Tables → Type 0} {E : Tables → Type 0} (o : Outcome A)
    → Ensures Q E o
    → Ensures Q E (enrolled_or_internal o)
unfolding enrolled_or_internal
enrolled-Ensures (done a d) h = record { holds = h.holds }
enrolled-Ensures (fail e d) h = record { holds = h.holds }

-- What holds of the tokens holds after the second factor is checked.
module _ (P : List ApiToken → Type 0) where
  abbrev Kept : {A : Type 0} → Outcome A → Type 0
  Kept o = Ensures (λ _ t. P t.api_tokens) (λ t. P t.api_tokens) o

  or_not_found-Kept :
      (row : Option User) (db : Db) → P db.tables.api_tokens → Kept (Users.or_not_found row db)
  or_not_found-Kept none db h = fail_last h
  or_not_found-Kept (some u) db h = done_last h

  Kept-then :
      {A B : Type 0} {o : Outcome A} (k : A → Db → Outcome B)
      → Kept o
      → ((a : A) (d : Db) → P d.tables.api_tokens → Kept (k a d))
      → Kept (and_then o k)
  Kept-then k h go = then-Ensures k h go

  verify_login_code-Kept :
      (ext : External) (now id : ℕ) (code : Str) (db : Db)
      → P db.tables.api_tokens
      → Kept (verify_login_code ext now id code db)
  unfolding verify_login_code Users.mutate_locked Users.find_by_id Users.save
  verify_login_code-Kept ext now id code db h = enrolled-Ensures _ (
      Kept-then _ (query-Ensures _ db h h) λ row d h.
        Kept-then _ (or_not_found-Kept row d h) λ u d h.
          Kept-then _
            (Kept-then _ (check-Ensures _ _ d h h)
              λ _ d h. Kept-then _ (lift-Ensures _ d h (λ _. h)) λ _ d h. done_last h)
            λ r d h. Kept-then _ (exec-Ensures _ d h h) λ _ d h. done_last h)

module _ (ext : External) (c : Config) where
  -- What is asked of the tokens: the user's live ones stay within the limit.
  abbrev Within : ℕ → ℕ → Tables → Type 0
  Within user now t = live user now t.api_tokens ≤ c.max_per_user

  store_token-Ensures :
      (u : User) (cmd : IssueCommand) (scopes : List Str) (d : Draws) (user : ℕ) (db : Db)
      → Within user d.now db.tables
      → Ensures
          (λ _ t. Within user d.now t)
          (λ t. Within user d.now t)
          (store_token ext c u cmd scopes d db)
  unfolding store_token ApiTokens.count_active_by_user ApiTokens.create
  store_token-Ensures u cmd scopes d user db h =
      then-Reads _ (query-Reads (λ t. live u.id d.now t.api_tokens) db) h λ n fs e.
        then-Reads _ (check-Reads _ _ _) h λ _ fs room.
          then-Reads _ (lift-joined-Reads _ _) h λ s fs _.
            then-Reads _ (lift-joined-Reads _ _) h λ v fs _. exec_then _ _ _ h (
              done_last
                (append-within user d.now c.max_per_user db.tables.api_tokens _ h (ground arith)))

  authorize_by-Kept :
      (P : List ApiToken → Type 0) (policy : Option Policy) (actor : Principal) (u : User) (db : Db)
      → P db.tables.api_tokens
      → Kept P (authorize_by ext c policy actor u db)
  authorize_by-Kept P none actor u db h = fail_last h
  authorize_by-Kept P (some policy) actor u db h = lift-Ensures _ db h (λ _. h)

  -- The proof of authority only reads and writes accounts.
  prove_authority-Kept :
      (P : List ApiToken → Type 0) (actor : Option Principal) (u : User) (cmd : IssueCommand)
      (now : ℕ) (db : Db)
      → P db.tables.api_tokens
      → Kept P (prove_authority ext c actor u cmd now db)
  unfolding prove_authority prove_owner
  prove_authority-Kept P none u cmd now db h = Kept-then P _ (check-Ensures _ _ db h h) λ _ d h.
      branch-Ensures _ _ _ d
        (λ _. Kept-then P _ (check-Ensures _ _ d h h) λ _ d h.
          Kept-then P _ (verify_login_code-Kept P ext now u.id cmd.two_factor_code d h)
            λ b d h. check-Ensures b _ d h h)
        (λ _. done_last h)
  prove_authority-Kept P (some actor) u cmd now db h =
      authorize_by-Kept P (policy_of actor.guard c.delegation_actors) actor u db h

  -- If the live tokens of a user are within the limit before Issue, by whomever and for whomever,
  -- they are after it, whether it returns a token or fails.
  pub issue-limit :
      (user : ℕ) (d : Draws) (cmd : IssueCommand) (actor : Option Principal) (db : Db)
      → live user d.now db.tables.api_tokens ≤ c.max_per_user
      → live user d.now (tables_of (issue ext c d cmd actor db)).api_tokens ≤ c.max_per_user
  unfolding issue Users.find_by_id
  issue-limit user d cmd actor db h = at_end {P = Within user d.now} _ (
      then-Reads _ (check-Reads _ _ db) h λ _ fs _. then-Reads _ (check-Reads _ _ _) h λ _ fs _.
        then-Reads _ (lift-Reads _ _) h λ scopes fs _.
          then-Reads _ (query-Reads (λ t. Users.select_id cmd.user_id t.users) _) h λ row fs _.
            then-Reads _ (live_user-Reads row _) h λ u fs _.
              then-Ensures _
                (prove_authority-Kept (λ rows. live user d.now rows ≤ c.max_per_user) actor u cmd
                  d.verify_now _ h)
                λ _ db h. store_token-Ensures u cmd scopes d user db h)
