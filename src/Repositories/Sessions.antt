-- ===== src/Repositories/Sessions.antt =====
-- repositories/sessions.go
use goravel_authkit.Base.{
  ℕ, ◌+◌, Bool, not, ◌&&◌, List, [], ◌∷◌, ◌++◌, Option, none, some, leb, ◌==◌, if◌then◌else◌, first,
  keep, count, rewrite_where,
}
use goravel_authkit.Text.{Str, str_eq}
use goravel_authkit.Models.{AuthSession}
use goravel_authkit.Store.{M, exec, query}

unfoldable pub unless_nil : Option AuthSession → Option AuthSession
unless_nil none = none
unless_nil (some s) = if s.id == 0 then none else some s

unfoldable pub create : AuthSession → M (Unit {0})
create s = exec (λ t. (tt, record t { sessions = t.sessions ++ s ∷ [] }))

unfoldable pub select_id : ℕ → List AuthSession → Option AuthSession
unfolding unless_nil
select_id id rows = unless_nil (first (λ s. s.id == id) rows)

unfoldable pub find_by_id : ℕ → M (Option AuthSession)
find_by_id id = query (λ t. select_id id t.sessions)

abbrev pub has_session_id : Str → AuthSession → Bool
has_session_id session_id s = str_eq s.session_id session_id

-- The rows affected.
unfoldable pub touch_last_active : Str → ℕ → M ℕ
touch_last_active session_id now = exec (λ t. (
  count (has_session_id session_id) t.sessions,
  record t {
    sessions =
        rewrite_where (has_session_id session_id) (λ s. record s { last_active_at = now })
          t.sessions;
  },
))

-- ORDER BY last_active_at DESC: a stable insertion sort.
unfoldable pub insert_recent : AuthSession → List AuthSession → List AuthSession
insert_recent s [] = s ∷ []
insert_recent s (r ∷ rows) =
    let rest = insert_recent s rows in
    if leb r.last_active_at s.last_active_at then s ∷ r ∷ rows else r ∷ rest

unfoldable pub most_recent_first : List AuthSession → List AuthSession
unfolding insert_recent
most_recent_first [] = []
most_recent_first (s ∷ rows) = insert_recent s (most_recent_first rows)

-- last_active_at >= now - window
abbrev pub is_recent : ℕ → ℕ → AuthSession → Bool
is_recent window now s = leb now (s.last_active_at + window)

unfoldable pub list_by_user : ℕ → ℕ → ℕ → M (List AuthSession)
list_by_user user window now =
    query
      (λ t. most_recent_first (keep (λ s. s.user_id == user && is_recent window now s) t.sessions))

unfoldable pub delete_by_id : ℕ → M (Unit {0})
delete_by_id id = exec (λ t. (tt, record t { sessions = keep (λ s. not (s.id == id)) t.sessions }))

unfoldable pub delete_by_session_id : Str → M (Unit {0})
delete_by_session_id session_id =
    exec
      (λ t. (tt, record t { sessions = keep (λ s. not (has_session_id session_id s)) t.sessions }))

abbrev pub is_other : ℕ → Str → AuthSession → Bool
is_other user except s = s.user_id == user && not (str_eq s.session_id except)

unfoldable pub delete_others_for_user : ℕ → Str → M (Unit {0})
delete_others_for_user user except =
    exec (λ t. (tt, record t { sessions = keep (λ s. not (is_other user except s)) t.sessions }))

unfoldable pub delete_by_user : ℕ → M (Unit {0})
delete_by_user user =
    exec (λ t. (tt, record t { sessions = keep (λ s. not (s.user_id == user)) t.sessions }))

unfoldable pub delete_stale : ℕ → ℕ → M (Unit {0})
delete_stale window now =
    exec (λ t. (tt, record t { sessions = keep (λ s. is_recent window now s) t.sessions }))
