-- ===== src/Repositories/Remember/Laws.antt =====
-- Laws of the rows of remember tokens.
use goravel_authkit.Base.{
  ℕ, ◌≡◌, ◌≢◌, refl, List, [], ◌∷◌, Option, some, arith, ◌==◌, first, keep, All,
}
use goravel_authkit.Text.{Str, str_eq}
use goravel_authkit.Models.{RememberToken}
use goravel_authkit.Repositories.Remember.{unless_nil, select_selector, without_user}

-- No row of the user is left by the deletion, and the rows of another user stay.
pub without-user :
    (user : ℕ) (rows : List RememberToken)
    → All (λ (r : RememberToken). r.user_id ≢ user) (without_user user rows)
without-user user [] = tt
without-user user (r ∷ rows) = ground (arith, without-user user rows)

pub without-other :
    (user other : ℕ) (rows : List RememberToken)
    → other ≢ user
    → keep (λ r. r.user_id == other) (without_user user rows) ≡ keep (λ r. r.user_id == other) rows
without-other user other [] ne = refl
without-other user other (r ∷ rows) ne = ground (arith, without-other user other rows)

first-other :
    (user : ℕ) (selector : Str) (rows : List RememberToken) (t : RememberToken)
    → All (λ (r : RememberToken). r.user_id ≢ user) rows
    → first (λ (r : RememberToken). str_eq r.selector selector) rows ≡ some t
    → t.user_id ≢ user
first-other user selector [] t h e = absurd (cc)
first-other user selector (r ∷ rows) t h e = ground (arith, first-other user selector rows t, h.1)

unless_nil-some :
    (o : Option RememberToken) (t : RememberToken) → unless_nil o ≡ some t → o ≡ some t
unfolding unless_nil
unless_nil-some o t e = ground arith

-- A lookup among rows that are all of others finds a row of another.
pub select_selector-other :
    (user : ℕ) (selector : Str) (rows : List RememberToken) (t : RememberToken)
    → All (λ (r : RememberToken). r.user_id ≢ user) rows
    → select_selector selector rows ≡ some t
    → t.user_id ≢ user
unfolding select_selector
select_selector-other user selector rows t h e =
    first-other user selector rows t h (unless_nil-some _ t e)
