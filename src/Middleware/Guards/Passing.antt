-- ===== src/Middleware/Guards/Passing.antt =====
-- http/middleware/authenticated.go, http/middleware/api_token.go: what holds of a request that
-- passes.
use mathlib.Core.Path.{subst}
use goravel_authkit.Base.{
  ℕ, ◌≡◌, refl, ap, sym, ◌∙◌, Bool, true, false, List, Option, none, some, arith, Bool-cases, inl,
  inr, Option-cases,
}
use goravel_authkit.Text.{Str, lit, str_eq}
use goravel_authkit.Errors.{Err}
use goravel_authkit.Models.{User, ApiToken}
use goravel_authkit.External.{External}
use goravel_authkit.Store.{Db, Tables}
use goravel_authkit.Store.Laws.{Ensures, branch-Ensures, done_last}
use goravel_authkit.Store.Calls.{query-Ensures, recovered-Ensures}
use goravel_authkit.Errors.{is_invalid_api_token}
use goravel_authkit.Models.{is_disabled}
use goravel_authkit.Text.{trim_space}
use goravel_authkit.Repositories.Users
use goravel_authkit.Repositories.Users.{select_id}
use goravel_authkit.Services.ApiTokens
use goravel_authkit.Services.ApiTokens.Revocation.{Accepted, resolve-genuine}
use goravel_authkit.Middleware.Guards.{
  Decision, next, abort, Identity, admit, authenticated, stamp_passes, admit_token, has_scopes,
  bearer_token, bearer_authenticated, authenticate_any, refuse_token,
}

-- What is asked of a decision that lets a request through.
abbrev pub IfPassed : (Identity → Type 0) → Decision → Type 0
IfPassed P (next who) = P who
IfPassed P (abort e status code) = Unit

-- Whom the session guard lets through: the id of the session has a row that is not disabled, and
-- the stamp of the session, if the request has one, is that of the row.
abbrev pub Entitled :
    (format : ℕ → Str) → (id : ℕ) → Option (Option Str) → List User → Identity → Type 0
Entitled format id stamp users who =
    (u : User) × (select_id id users ≡ some u)
    × (who.user_id ≡ u.id)
    × (is_disabled u ≡ false)
    × (stamp_passes format stamp u.password_changed_at ≡ true)

admit-Entitled :
    (format : ℕ → Str) (id : ℕ) (stamp : Option (Option Str)) (row : Option User)
    (users : List User)
    → select_id id users ≡ row
    → IfPassed (Entitled format id stamp users) (admit format stamp row)
unfolding admit
admit-Entitled format id stamp none users e = tt
admit-Entitled format id stamp (some u) users e = elim (Bool-cases (is_disabled u)) [
  | inl d ↦ rw d tt
  | inr d ↦ elim (Bool-cases (stamp_passes format stamp u.password_changed_at)) [
    | inl s ↦ rw (d, s) (u, e, refl, d, s)
    | inr s ↦ rw (d, s) tt
  ]
]

-- Authenticated changes nothing in the database, never fails, and lets through only a request
-- whose session names an account that exists and is not disabled, with the stamp of its password
-- if the request has a session.
pub authenticated-Entitled :
    (format : ℕ → Str) (id : ℕ) (stamp : Option (Option Str)) (db : Db)
    → Ensures
        (λ d t. IfPassed (Entitled format id stamp db.tables.users) d × (t ≡ db.tables))
        (λ t. ⊥)
        (authenticated format id stamp db)
unfolding authenticated Users.find_by_id
authenticated-Entitled format id stamp db =
    branch-Ensures _ _ _ db (λ _. done_last (tt, refl))
      λ _.
        recovered-Ensures _ _
          (query-Ensures {Q = λ row t. (select_id id db.tables.users ≡ row) × (t ≡ db.tables)}
            {E = λ t. t ≡ db.tables} (λ t. select_id id t.users) db refl (refl, refl))
          (λ row d h. done_last (admit-Entitled format id stamp row db.tables.users h.0, h.1))
          (λ e d h. done_last (tt, h))

-- A token that is accepted, an owner of it that is not disabled, and all scopes that are asked for.
abbrev pub Bearer :
    External
    → (required : List Str) → (header : Str) → (checked_at : ℕ) → Tables
    → Identity
    → Type 0
Bearer ext required header checked_at t who =
    (plaintext : Str) × (token : ApiToken) × (u : User) × (bearer_token ext header ≡ some plaintext)
    × Accepted ext plaintext checked_at t.api_tokens token
    × (select_id token.user_id t.users ≡ some u)
    × (is_disabled u ≡ false)
    × (has_scopes ext token.scopes required ≡ true)
    × (who.user_id ≡ u.id)
    × (who.scopes ≡ token.scopes)

module _ (ext : External) (c : ApiTokens.Config) (required : List Str) (header : Str)
    (checked_at now : ℕ) where
  admit_token-Bearer :
      (plaintext : Str) (t : Tables) (row token : ApiToken) (users : List User)
      (owner : Option User)
      → bearer_token ext header ≡ some plaintext
      → Accepted ext plaintext checked_at t.api_tokens row
      → token ≡ record row { last_used_at = some now }
      → users ≡ t.users
      → select_id token.user_id users ≡ owner
      → IfPassed (Bearer ext required header checked_at t) (admit_token ext required token owner)
  unfolding admit_token
  admit_token-Bearer plaintext t row token users none word good same kept e = tt
  admit_token-Bearer plaintext t row token users (some u) word good same kept e =
      elim (Bool-cases (is_disabled u)) [
        | inl d ↦ rw d tt
        | inr d ↦ elim (Bool-cases (has_scopes ext token.scopes required)) [
          | inl s ↦
              rw (d, s)
                (
                  plaintext,
                  row,
                  u,
                  word,
                  good,
                  subst (λ x. select_id row.user_id x ≡ some u) kept
                      (ap (λ (x : ApiToken). select_id x.user_id users) (sym same) ∙ e),
                  d,
                  ap (λ (x : ApiToken). has_scopes ext x.scopes required) (sym same) ∙ s,
                  refl,
                  ap (λ (x : ApiToken). x.scopes) same,
                )
          | inr s ↦ rw (d, s) tt
        ]
      ]

  refuse_token-IfPassed : (P : Identity → Type 0) (e : Err) → IfPassed P (refuse_token ext e)
  refuse_token-IfPassed P e = elim (Bool-cases (is_invalid_api_token e)) [
    | inl i ↦ rw i tt
    | inr i ↦ rw i tt
  ]

  -- BearerAuthenticated lets through only a request with an accepted token, of an account that is
  -- not disabled, that has all required scopes.
  pub bearer_authenticated-Bearer :
      (enabled : Bool) (db : Db)
      → Ensures
          (λ d _. IfPassed (Bearer ext required header checked_at db.tables) d)
          (λ _. ⊥)
          (bearer_authenticated ext c enabled required header checked_at now db)
  unfolding bearer_authenticated Users.find_by_id
  bearer_authenticated-Bearer enabled db =
      branch-Ensures _ _ _ db
        (λ _. elim (Option-cases (bearer_token ext header)) [
          | inl e ↦ rw e (done_last tt)
          | inr (plaintext, e) ↦ rw e (
              recovered-Ensures _ _ (resolve-genuine ext c plaintext checked_at now db)
                (λ token d h.
                  recovered-Ensures _ _
                    (query-Ensures {Q = λ row t. select_id token.user_id d.tables.users ≡ row}
                      {E = λ t. Unit {0}} (λ t. select_id token.user_id t.users) d tt refl)
                    (λ row d' found. done_last (
                      admit_token-Bearer plaintext db.tables h.0.0 token d.tables.users row e h.0.1
                        h.0.2 h.1 found))
                    (λ x d' _. done_last tt))
                (λ x d _. done_last (refuse_token-IfPassed _ x)))
        ])
        (λ _. done_last tt)

  -- AuthenticateAny never lets a session through where the request has an Authorization header
  -- that is not blank: then it is a bearer token that passes, whatever the session holds.
  pub authenticate_any-Bearer :
      (enabled : Bool) (format : ℕ → Str) (id : ℕ) (stamp : Option (Option Str)) (db : Db)
      → str_eq (trim_space header) (lit "") ≡ false
      → Ensures
          (λ d _. IfPassed (Bearer ext required header checked_at db.tables) d)
          (λ _. ⊥)
          (authenticate_any ext c enabled required header checked_at now format id stamp db)
  unfolding authenticate_any
  authenticate_any-Bearer enabled format id stamp db h =
      branch-Ensures _ _ _ db (λ _. bearer_authenticated-Bearer enabled db)
        λ f. absurd (ground arith)
