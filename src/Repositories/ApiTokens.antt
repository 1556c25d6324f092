-- ===== src/Repositories/ApiTokens.antt =====
-- repositories/api_tokens.go
use goravel_authkit.Base.{
  ℕ, ◌+◌, Bool, true, false, not, ◌&&◌, ◌||◌, List, [], ◌∷◌, ◌++◌, Option, none, some, ltb, leb,
  ◌==◌, if◌then◌else◌, first, keep, count, rewrite_where, is_some,
}
use goravel_authkit.Text.{Str, str_eq}
use goravel_authkit.Models.{ApiToken}
use goravel_authkit.Store.{M, exec, query}

unfoldable pub unless_nil : Option ApiToken → Option ApiToken
unless_nil none = none
unless_nil (some t) = if t.id == 0 then none else some t

unfoldable pub create : ApiToken → M (Unit {0})
create token = exec (λ t. (tt, record t { api_tokens = t.api_tokens ++ token ∷ [] }))

unfoldable pub select_selector : Str → List ApiToken → Option ApiToken
unfolding unless_nil
select_selector selector rows = unless_nil (first (λ r. str_eq r.selector selector) rows)

unfoldable pub find_by_selector : Str → M (Option ApiToken)
find_by_selector selector = query (λ t. select_selector selector t.api_tokens)

-- user_id = user AND revoked_at IS NULL
abbrev pub unrevoked_of : ℕ → ApiToken → Bool
unrevoked_of user r = r.user_id == user && not (is_some r.revoked_at)

-- ORDER BY created_at DESC: a stable insertion sort.
unfoldable pub insert_newest : ApiToken → List ApiToken → List ApiToken
insert_newest r [] = r ∷ []
insert_newest r (s ∷ rows) =
    let rest = insert_newest r rows in
    if leb s.created_at r.created_at then r ∷ s ∷ rows else s ∷ rest

unfoldable pub newest_first : List ApiToken → List ApiToken
unfolding insert_newest
newest_first [] = []
newest_first (r ∷ rows) = insert_newest r (newest_first rows)

unfoldable pub list_by_user : ℕ → M (List ApiToken)
list_by_user user = query (λ t. newest_first (keep (unrevoked_of user) t.api_tokens))

-- ... AND expires_at > now
abbrev pub is_live_of : ℕ → ℕ → ApiToken → Bool
is_live_of user now r = unrevoked_of user r && ltb now r.expires_at

unfoldable pub count_active_by_user : ℕ → ℕ → M ℕ
count_active_by_user user now = query (λ t. count (is_live_of user now) t.api_tokens)

abbrev pub revoke_at : ℕ → ApiToken → ApiToken
revoke_at now r = record r { revoked_at = some now }

abbrev pub is_revocable : ℕ → ℕ → ApiToken → Bool
is_revocable id user r = r.id == id && unrevoked_of user r

-- The rows affected.
unfoldable pub revoke : ℕ → ℕ → ℕ → M ℕ
revoke id user now = exec (λ t. (
  count (is_revocable id user) t.api_tokens,
  record t { api_tokens = rewrite_where (is_revocable id user) (revoke_at now) t.api_tokens },
))

unfoldable pub revoke_rows : ℕ → ℕ → List ApiToken → List ApiToken
revoke_rows user now = rewrite_where (unrevoked_of user) (revoke_at now)

unfoldable pub revoke_all_by_user : ℕ → ℕ → M (Unit {0})
revoke_all_by_user user now =
    exec (λ t. (tt, record t { api_tokens = revoke_rows user now t.api_tokens }))

-- last_used_at IS NULL OR last_used_at < now - interval
abbrev pub is_stale_use : ℕ → ℕ → ApiToken → Bool
is_stale_use interval now r = elim r.last_used_at [
  | none ↦ true
  | some at ↦ ltb (at + interval) now
]

unfoldable pub touch_last_used : ℕ → ℕ → ℕ → M (Unit {0})
touch_last_used id interval now = exec (λ t. (
  tt,
  record t {
    api_tokens =
        rewrite_where (λ r. r.id == id && is_stale_use interval now r)
          (λ r. record r { last_used_at = some now }) t.api_tokens;
  },
))

-- at < now - retention
abbrev pub is_long_past : ℕ → ℕ → ℕ → Bool
is_long_past retention now at = ltb (at + retention) now

abbrev pub is_prunable : ℕ → ℕ → ApiToken → Bool
is_prunable retention now r =
    is_long_past retention now r.expires_at
    || elim r.revoked_at [ none ↦ false | some at ↦ is_long_past retention now at ]

unfoldable pub delete_prunable : ℕ → ℕ → M (Unit {0})
delete_prunable retention now = exec (λ t.
    (tt, record t { api_tokens = keep (λ r. not (is_prunable retention now r)) t.api_tokens }))
