-- ===== src/Repositories/Remember.antt =====
-- repositories/remember.go
pub mod Laws
use goravel_authkit.Base.{
  ℕ, Bool, not, ◌&&◌, List, [], ◌∷◌, ◌++◌, Option, none, some, ltb, ◌==◌, if◌then◌else◌, first,
  keep, count, rewrite_where,
}
use goravel_authkit.Text.{Str, str_eq}
use goravel_authkit.Models.{RememberToken}
use goravel_authkit.Store.{M, exec, query}

unfoldable pub unless_nil : Option RememberToken → Option RememberToken
unless_nil none = none
unless_nil (some t) = if t.id == 0 then none else some t

unfoldable pub create : RememberToken → M (Unit {0})
create token = exec (λ t. (tt, record t { remember_tokens = t.remember_tokens ++ token ∷ [] }))

unfoldable pub select_selector : Str → List RememberToken → Option RememberToken
unfolding unless_nil
select_selector selector rows = unless_nil (first (λ r. str_eq r.selector selector) rows)

unfoldable pub find_by_selector : Str → M (Option RememberToken)
find_by_selector selector = query (λ t. select_selector selector t.remember_tokens)

abbrev pub holds : ℕ → Str → RememberToken → Bool
holds id hash r = r.id == id && str_eq r.validator_hash hash

abbrev pub rotated : Str → Str → ℕ → ℕ → RememberToken → RememberToken
rotated new previous rotated_at expires_at r = record r {
  validator_hash = new;
  previous_validator_hash = previous;
  rotated_at = some rotated_at;
  expires_at = expires_at;
}

unfoldable pub rotate_rows : ℕ → Str → Str → Str → ℕ → ℕ → List RememberToken → List RememberToken
rotate_rows id expected new previous rotated_at expires_at =
    rewrite_where (holds id expected) (rotated new previous rotated_at expires_at)

-- A compare-and-set on the validator's hash; the rows affected.
unfoldable pub rotate_validator : ℕ → Str → Str → Str → ℕ → ℕ → M ℕ
rotate_validator id expected new previous rotated_at expires_at = exec (λ t. (
  count (holds id expected) t.remember_tokens,
  record t {
    remember_tokens = rotate_rows id expected new previous rotated_at expires_at t.remember_tokens;
  },
))

unfoldable pub delete : ℕ → M (Unit {0})
delete id =
    exec (λ t. (tt, record t { remember_tokens = keep (λ r. not (r.id == id)) t.remember_tokens }))

abbrev pub without_user : ℕ → List RememberToken → List RememberToken
without_user user = keep (λ r. not (r.user_id == user))

unfoldable pub delete_by_user : ℕ → M (Unit {0})
delete_by_user user =
    exec (λ t. (tt, record t { remember_tokens = without_user user t.remember_tokens }))

unfoldable pub delete_expired : ℕ → M (Unit {0})
delete_expired now = exec (λ t.
    (tt, record t { remember_tokens = keep (λ r. not (ltb r.expires_at now)) t.remember_tokens }))
