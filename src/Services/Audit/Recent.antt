-- ===== src/Services/Audit/Recent.antt =====
-- services/audit.go: proofs about the recent sign-ins.
use goravel_authkit.Base.{
  ℕ, suc, ◌≡◌, ◌<◌, refl, Bool, true, false, List, [], ◌∷◌, ◌++◌, arith, ◌==◌, All, keep,
}
use goravel_authkit.Store.{Db, Tables, done, machine}
use goravel_authkit.Base.{take}
use goravel_authkit.Models.{AuditLog}
use goravel_authkit.Repositories.Audit
use goravel_authkit.Repositories.Audit.{insert_newest, newest_first, is_by}
use goravel_authkit.Services.Audit.{AuditEntry, login_actions, entry_of, log, recent_logins}

keep-append :
    (p : AuditLog → Bool) (rows : List AuditLog) (e : AuditLog)
    → p e ≡ true
    → keep p (rows ++ e ∷ []) ≡ keep p rows ++ e ∷ []
keep-append p [] e h = rw h refl
keep-append p (r ∷ rows) e h = ground (arith, keep-append p rows e h)

-- All rows are older.
abbrev pub Older : ℕ → List AuditLog → Type 0
Older now rows = All (λ (r : AuditLog). r.created_at < now) rows

newest_first-append :
    (rows : List AuditLog) (e : AuditLog)
    → Older e.created_at rows
    → newest_first (rows ++ e ∷ []) ≡ e ∷ newest_first rows
unfolding newest_first insert_newest
newest_first-append [] e h = refl
newest_first-append (r ∷ rows) e h = rw (newest_first-append rows e h.1) (ground arith)

abbrev at_rest : Tables → Db
at_rest tables = record { tables = tables; faults = [] }

-- A sign-in that is logged comes first among the recent sign-ins of its account, before the
-- others in their order, if it is later than they are and no call fails.
pub log-recent_logins :
    (id now user limit : ℕ) (e : AuditEntry) (tables : Tables)
    → is_by user login_actions (entry_of id now e) ≡ true
    → Older now (keep (is_by user login_actions) tables.audit_logs)
    → (after : Tables) × (log id now e (at_rest tables) ≡ done tt (at_rest after))
      × (recent_logins user (suc limit) (at_rest after)
          ≡ done
              (entry_of id now e
                ∷ take limit (newest_first (keep (is_by user login_actions) tables.audit_logs)))
              (at_rest after))
unfolding log recent_logins machine Audit.create Audit.list_by_actor_actions entry_of
log-recent_logins id now user limit e tables own older =
    let row = entry_of id now e in
    let rows = tables.audit_logs in
    let positive : (suc limit == 0) ≡ false = ground arith in
    (
      record tables { audit_logs = rows ++ row ∷ [] },
      refl,
      rw
          (
            positive,
            keep-append (is_by user login_actions) rows row own,
            newest_first-append (keep (is_by user login_actions) rows) row older,
          )
          refl,
    )
