-- ===== src/Repositories/Audit.antt =====
-- repositories/audit.go
use goravel_authkit.Base.{
  ℕ, Bool, false, ◌&&◌, List, [], ◌∷◌, ◌++◌, Option, none, some, leb, ◌==◌, if◌then◌else◌, keep,
  take,
}
use goravel_authkit.Text.{Str, mem_str}
use goravel_authkit.Models.{AuditLog}
use goravel_authkit.Store.{M, exec, query}

unfoldable pub create : AuditLog → M (Unit {0})
create entry = exec (λ t. (tt, record t { audit_logs = t.audit_logs ++ entry ∷ [] }))

-- ORDER BY created_at DESC: a stable insertion sort.
unfoldable pub insert_newest : AuditLog → List AuditLog → List AuditLog
insert_newest r [] = r ∷ []
insert_newest r (s ∷ rows) =
    let rest = insert_newest r rows in
    if leb s.created_at r.created_at then r ∷ s ∷ rows else s ∷ rest

unfoldable pub newest_first : List AuditLog → List AuditLog
unfolding insert_newest
newest_first [] = []
newest_first (r ∷ rows) = insert_newest r (newest_first rows)

abbrev pub is_actor : Option ℕ → ℕ → Bool
is_actor none id = false
is_actor (some actor) id = actor == id

abbrev pub is_by : (actor : ℕ) → (actions : List Str) → AuditLog → Bool
is_by actor actions r = is_actor r.actor_id actor && mem_str actions r.action

unfoldable pub list_by_actor_actions :
    (actor : ℕ) → (actions : List Str) → (limit : ℕ) → M (List AuditLog)
list_by_actor_actions actor actions limit =
    query (λ t. take limit (newest_first (keep (is_by actor actions) t.audit_logs)))
