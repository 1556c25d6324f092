-- ===== src/Services/Sessions/Termination.antt =====
-- services/sessions.go: which sessions are alive after a login, a termination or a pruning.
use goravel_authkit.Base.{
  ℕ, ◌+◌, ◌≡◌, refl, ap, sym, ◌∙◌, true, false, not, List, [], ◌∷◌, ◌++◌, Option, none, some, ltb,
  arith, ◌==◌, All, Bool-cases, inl, inr, rewrite_where, count, keep,
}
use goravel_authkit.Text.{Str, lit, str_eq}
use goravel_authkit.Text.Laws.{str_eq_refl, str_eq_sound}
use goravel_authkit.Models.{AuthSession}
use goravel_authkit.Store.{Db, Tables, done, machine}
use goravel_authkit.Store.Laws.{
  Ensures, Reads, then-Reads, Reads-then, query-Reads, check-Reads, fail-Reads, done-Reads,
  exec_last,
}
use goravel_authkit.Repositories.Sessions
use goravel_authkit.Repositories.Sessions.{has_session_id, is_other, select_id, is_recent}
use goravel_authkit.Services.Sessions.{touch, track, terminate, terminate_others, owned_by}

abbrev pub at_rest : Tables → Db
at_rest tables = record { tables = tables; faults = [] }

-- The number of rows of a session id.
abbrev pub rows_of : Str → List AuthSession → ℕ
rows_of session_id rows = count (has_session_id session_id) rows

touch_lem :
    (now : ℕ) (session_id : Str) (tables : Tables)
    → str_eq session_id (lit "") ≡ false
    → (after : Tables) × (touch now session_id (at_rest tables)
        ≡ done (ltb 0 (rows_of session_id tables.sessions)) (at_rest after))
unfolding touch machine Sessions.touch_last_active
touch_lem now session_id tables e = (
  record tables {
    sessions =
        rewrite_where (has_session_id session_id) (λ s. record s { last_active_at = now })
          tables.sessions;
  },
  rw e refl,
)

gone-others :
    (user : ℕ) (current session_id : Str) (rows : List AuthSession)
    → All (λ (s : AuthSession). has_session_id session_id s ≡ true → s.user_id ≡ user) rows
    → str_eq session_id current ≡ false
    → rows_of session_id (keep (λ s. not (is_other user current s)) rows) ≡ 0
gone-others user current session_id [] own e = refl
gone-others user current session_id (s ∷ rows) own e =
    let rest = gone-others user current session_id rows own.1 e in
    elim (Bool-cases (has_session_id session_id s)) [
      | inr f ↦ ground arith
      | inl f ↦
          let same = ap (λ x. str_eq x current) (str_eq_sound s.session_id session_id f) in
          let mine = own.0 f in ground (arith, rest)
    ]

kept-current :
    (user : ℕ) (current : Str) (rows : List AuthSession)
    → rows_of current (keep (λ s. not (is_other user current s)) rows) ≡ rows_of current rows
kept-current user current [] = refl
kept-current user current (s ∷ rows) = ground (arith, kept-current user current rows)

appended-rows :
    (session_id : Str) (rows : List AuthSession) (s : AuthSession)
    → rows_of session_id (rows ++ s ∷ []) ≡ rows_of session_id rows + rows_of session_id (s ∷ [])
appended-rows session_id [] s = ground arith
appended-rows session_id (r ∷ rows) s = ground (arith, appended-rows session_id rows s)

gone-rows :
    (session_id : Str) (rows : List AuthSession)
    → rows_of session_id (keep (λ s. not (has_session_id session_id s)) rows) ≡ 0
gone-rows session_id [] = refl
gone-rows session_id (s ∷ rows) = ground (arith, gone-rows session_id rows)

owned_by-Reads :
    (row : Option AuthSession) (user : ℕ) (db : Db)
    → Reads (λ s. (row ≡ some s) × (s.user_id ≡ user)) db.tables (owned_by row user db)
unfolding owned_by
owned_by-Reads none user db = fail-Reads
owned_by-Reads (some s) user db =
    Reads-then _ (check-Reads _ _ _) λ _ fs own. done-Reads (refl, ground arith)

-- After TerminateOthers every other session of the user is refused by Touch, and the current one
-- is answered as before, if all rows of that session belong to the user and no call fails.
pub terminate_others-touch :
    (now user : ℕ) (current session_id : Str) (tables : Tables)
    → All
        (λ (s : AuthSession). has_session_id session_id s ≡ true → s.user_id ≡ user)
        tables.sessions
    → str_eq session_id (lit "") ≡ false
    → str_eq current (lit "") ≡ false
    → str_eq session_id current ≡ false
    → (after : Tables) × (last : Tables) × (last' : Tables) × (terminate_others user current
          (at_rest tables)
        ≡ done tt (at_rest after))
      × (touch now session_id (at_rest after) ≡ done false (at_rest last))
      × (touch now current (at_rest after)
          ≡ done (ltb 0 (rows_of current tables.sessions)) (at_rest last'))
unfolding terminate_others machine Sessions.delete_others_for_user
terminate_others-touch now user current session_id tables own s c other =
    let after : Tables = record tables {
      sessions = keep (λ s. not (is_other user current s)) tables.sessions;
    } in
    let (last, refused) = touch_lem now session_id after s in
    let (last', alive) = touch_lem now current after c in
    (
      after,
      last,
      last',
      refl,
      refused
          ∙ ap (λ n. done (ltb 0 n) (at_rest last))
              (gone-others user current session_id tables.sessions own other),
      alive ∙ ap (λ n. done (ltb 0 n) (at_rest last')) (kept-current user current tables.sessions),
    )

-- A session that Track records has one row and is accepted by Touch, if no call fails.
pub track-touch :
    (id now later user : ℕ) (session_id ip agent : Str) (tables : Tables)
    → str_eq session_id (lit "") ≡ false
    → (after : Tables) × (last : Tables) × (track id now session_id user ip agent (at_rest tables)
        ≡ done tt (at_rest after))
      × (rows_of session_id after.sessions ≡ 1)
      × (touch later session_id (at_rest after) ≡ done true (at_rest last))
unfolding track machine Sessions.delete_by_session_id Sessions.create
track-touch id now later user session_id ip agent tables e =
    let row : AuthSession = record {
      id = id;
      session_id = session_id;
      user_id = user;
      ip = ip;
      user_agent = agent;
      created_at = now;
      last_active_at = now;
    } in
    let after : Tables = record tables {
      sessions = keep (λ s. not (has_session_id session_id s)) tables.sessions ++ row ∷ [];
    } in
    let one : rows_of session_id after.sessions ≡ 1 =
      appended-rows session_id (keep (λ s. not (has_session_id session_id s)) tables.sessions) row
      ∙ ground (arith, gone-rows session_id tables.sessions, str_eq_refl session_id) in
    let (last, alive) = touch_lem later session_id after e in
    (after, last, rw e refl, one, alive ∙ ap (λ n. done (ltb 0 n) (at_rest last)) one)

-- Terminate, when it succeeds, removes the rows of an id that is one of the user that asks, and
-- not of the session that asks; when it fails, nothing changes.
pub terminate-own :
    (user public_id : ℕ) (current : Str) (db : Db)
    → Ensures
        (λ _ t.
          (s : AuthSession) × (select_id public_id db.tables.sessions ≡ some s)
          × (s.user_id ≡ user)
          × (str_eq s.session_id current ≡ false)
          × (t.sessions ≡ keep (λ r. not (r.id == public_id)) db.tables.sessions))
        (λ t. t ≡ db.tables)
        (terminate user public_id current db)
unfolding terminate Sessions.find_by_id Sessions.delete_by_id
terminate-own user public_id current db =
    then-Reads _ (query-Reads (λ t. select_id public_id t.sessions) db) refl λ row fs found.
      then-Reads _ (owned_by-Reads row user _) refl λ s fs own.
        then-Reads _ (check-Reads _ _ _) refl
          λ _ fs other. exec_last _ _ refl (s, sym found ∙ own.0, own.1, ground arith, refl)
