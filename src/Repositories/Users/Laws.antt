-- ===== src/Repositories/Users/Laws.antt =====
-- Laws of the rows of users: what a lookup finds, and what a write keeps.
use goravel_authkit.Base.{
  ℕ, ◌≡◌, ◌≢◌, ◌≤◌, refl, ◌∙◌, true, false, not, ◌&&◌, List, [], ◌∷◌, Option, some, arith, ◌==◌,
  first, keep, count, All,
}
use goravel_authkit.Text.{Str}
use goravel_authkit.Models.{User}
use goravel_authkit.Repositories.Users.{
  unless_nil, with_id, select_id, save_row, active_excluding, is_active_with_role,
}

-- The primary key: no two rows have one id.
abbrev pub UniqueIds : List User → Type 0
UniqueIds [] = Unit
UniqueIds (u ∷ us) = All (λ (v : User). v.id ≢ u.id) us × UniqueIds us

-- The number of active accounts that hold one of the roles, and of those other than `id`.
abbrev pub admins : List Str → List User → ℕ
admins roles us = count (is_active_with_role roles) us

abbrev pub others : List Str → ℕ → List User → ℕ
others roles id us = count (λ u. is_active_with_role roles u && not (u.id == id)) us

pub unless_nil-some :
    (o : Option User) (u : User) → unless_nil o ≡ some u → (o ≡ some u) × (u.id ≢ 0)
unfolding unless_nil
unless_nil-some o u e = ground arith

first-id : (id : ℕ) (us : List User) (u : User) → first (with_id id) us ≡ some u → u.id ≡ id
first-id id [] u e = cc
first-id id (v ∷ us) u e = ground (arith, first-id id us u)

-- A row that is found is the first with the id that was asked for, and that is not uuid.Nil.
pub select_id-first :
    (id : ℕ) (us : List User) (u : User)
    → select_id id us ≡ some u
    → (first (with_id id) us ≡ some u) × (u.id ≡ id) × (id ≢ 0)
unfolding select_id
select_id-first id us u e =
    let (found, nonzero) = unless_nil-some (first (with_id id) us) u e in
    let same = first-id id us u found in (found, same, λ z. nonzero (same ∙ z))

module _ (roles : List Str) where
  others-le-admins : (id : ℕ) (us : List User) → others roles id us ≤ admins roles us
  others-le-admins id [] = omega arith
  others-le-admins id (v ∷ us) = ground (arith, others-le-admins id us)

  -- Where no later row has the id, all active administrators among them are other accounts.
  absent-others :
      (id k : ℕ) (us : List User)
      → k ≡ id
      → All (λ (v : User). v.id ≢ k) us
      → others roles id us ≡ admins roles us
  absent-others id k [] e h = refl
  absent-others id k (v ∷ us) e h = ground (arith, absent-others id k us e h.1)

  -- If the row with the id is no active administrator, all of those are other accounts.
  pub inactive-others :
      (id : ℕ) (us : List User) (u : User)
      → UniqueIds us
      → first (with_id id) us ≡ some u
      → is_active_with_role roles u ≡ false
      → others roles id us ≡ admins roles us
  inactive-others id [] u h e i = refl
  inactive-others id (v ∷ us) u h e i =
      ground (arith, inactive-others id us u h.1, absent-others id v.id us)

  -- Saving one row keeps the other administrators.
  pub others-save :
      (u : User) (us : List User) → others roles u.id us ≤ admins roles (save_row u us)
  unfolding save_row
  others-save u [] = omega arith
  others-save u (v ∷ us) = ground (arith, others-save u us)

  -- Saving an active administrator over the row that was found leaves at least one.
  pub admin-save :
      (id : ℕ) (u : User) (us : List User) (v : User)
      → u.id ≡ id
      → first (with_id id) us ≡ some v
      → is_active_with_role roles u ≡ true
      → 1 ≤ admins roles (save_row u us)
  unfolding save_row
  admin-save id u [] v same e a = cc
  admin-save id u (w ∷ us) v same e a = ground (arith, admin-save id u us v same)

  pub others-delete :
      (id : ℕ) (us : List User)
      → others roles id us ≤ admins roles (keep (λ v. not (v.id == id)) us)
  others-delete id [] = omega arith
  others-delete id (v ∷ us) = ground (arith, others-delete id us)

  -- The query counts the others.
  pub active_excluding-others :
      (id : ℕ) (us : List User) → id ≢ 0 → active_excluding roles id us ≢ 0 → 1 ≤ others roles id us
  unfolding active_excluding
  active_excluding-others id us nonzero h = ground arith
