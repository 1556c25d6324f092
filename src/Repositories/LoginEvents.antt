-- ===== src/Repositories/LoginEvents.antt =====
-- repositories/login_events.go: the sign-ins of a guard, filtered, sorted and paged. LOWER of the
-- database is a parameter.
pub mod Like
use goravel_authkit.Base.{
  int64, ℕ, ◌-◌, ◌*◌, Bool, true, false, not, ◌&&◌, ◌||◌, List, [], ◌∷◌, ◌++◌, Option, none, some,
  ltb, leb, ◌==◌, if◌then◌else◌, is_empty, first, keep, length, take, drop,
}
use goravel_authkit.Text.{Str, lit, str_eq, to_lower, mem_str}
use goravel_authkit.Models.{User, AuditLog}
use goravel_authkit.Store.{Tables, M, query, ◌>>=◌, done, Db, Outcome}
use goravel_authkit.Repositories.Users.{with_id}

pub record LoginEventRecord : Type 0 where
  pub id : ℕ
  pub user_id : Option ℕ
  pub user_name : Option Str
  pub user_email : Str
  pub action : Str
  pub ip : Str
  pub created_at : ℕ

pub record LoginEventFilter : Type 0 where
  pub actions : List Str
  pub user : Str
  pub ip : Str
  pub method_action : Str
  pub oldest_first : Bool

-- strings.ReplaceAll(s, c, "!" + c)
unfoldable pub guard_rune : ℕ → Str → Str
guard_rune c [] = []
guard_rune c (a ∷ s) = let rest = guard_rune c s in if a == c then b'!' ∷ a ∷ rest else a ∷ rest

unfoldable pub literal_contains_pattern : (lower_table : ℕ → ℕ) → Str → Str
literal_contains_pattern lower_table value =
    b'%'
    ∷ (guard_rune b'_' (guard_rune b'%' (guard_rune b'!' (to_lower lower_table value)))
        ++ b'%' ∷ [])

-- Does one of the suffixes pass?
abbrev pub any_suffix : (Str → Bool) → Str → Bool
any_suffix f [] = f []
any_suffix f (c ∷ t) = f (c ∷ t) || any_suffix f t

abbrev pub after_any : (Str → Bool) → Str → Bool
after_any f [] = false
after_any f (c ∷ t) = f t

abbrev pub after_rune : ℕ → (Str → Bool) → Str → Bool
after_rune d f [] = false
after_rune d f (c ∷ t) = c == d && f t

-- LIKE: % is any text, _ any character, and ! makes the next character a literal.
unfoldable pub like : Str → Str → Bool
like [] = is_empty
like (c ∷ []) =
    let rest = like [] in
    if c == b'%' then any_suffix rest else if c == b'_' then after_any rest else after_rune c rest
like (c ∷ d ∷ p) =
    let rest = like (d ∷ p) in
    let literal = after_rune d (like p) in
    if c == b'%'
    then any_suffix rest
    else if c == b'_'
    then after_any rest
    else if c == b'!'
    then literal
    else after_rune c rest

-- The LEFT JOIN: the user of the audit row, if there still is one.
unfoldable pub actor_of : List User → Option ℕ → Option User
actor_of users none = none
actor_of users (some id) = first (with_id id) users

abbrev name_or_empty : Option User → Str
name_or_empty none = lit ""
name_or_empty (some u) = elim u.name [ none ↦ lit "" | some n ↦ n ]

abbrev email_or : Option User → Str → Str
email_or none captured = captured
email_or (some u) captured = u.email

unfoldable pub event_of : List User → AuditLog → LoginEventRecord
unfolding actor_of
event_of users a = record {
  id = a.id;
  user_id = a.actor_id;
  user_name = elim (actor_of users a.actor_id) [ none ↦ none | some u ↦ u.name ];
  user_email = email_or (actor_of users a.actor_id) a.actor_email;
  action = a.action;
  ip = a.ip;
  created_at = a.created_at;
}

unfoldable pub events_of : List User → List AuditLog → List LoginEventRecord
unfolding event_of
events_of users [] = []
events_of users (a ∷ rows) = event_of users a ∷ events_of users rows

-- ORDER BY created_at, id, in the direction that is asked for.
unfoldable pub is_earlier : AuditLog → AuditLog → Bool
is_earlier a b = ltb a.created_at b.created_at || (a.created_at == b.created_at && leb a.id b.id)

unfoldable pub insert_event : (oldest_first : Bool) → AuditLog → List AuditLog → List AuditLog
unfolding is_earlier
insert_event oldest_first a [] = a ∷ []
insert_event oldest_first a (b ∷ rows) =
    let rest = insert_event oldest_first a rows in
    if (if oldest_first then is_earlier a b else is_earlier b a) then a ∷ b ∷ rows else b ∷ rest

unfoldable pub sort_events : (oldest_first : Bool) → List AuditLog → List AuditLog
unfolding insert_event
sort_events oldest_first [] = []
sort_events oldest_first (a ∷ rows) = insert_event oldest_first a (sort_events oldest_first rows)

module _ (db_lower : Str → Str) (lower_table : ℕ → ℕ) where
  -- A filter that is empty lets everything pass.
  abbrev contains_or_empty : (filter text : Str) → Bool
  contains_or_empty filter text =
      str_eq filter (lit "") || like (literal_contains_pattern lower_table filter) (db_lower text)

  unfoldable pub matches : List User → LoginEventFilter → AuditLog → Bool
  unfolding actor_of
  matches users f a =
      mem_str f.actions a.action
      && ((str_eq f.method_action (lit "") || str_eq a.action f.method_action)
          && ((contains_or_empty f.user (name_or_empty (actor_of users a.actor_id))
                || contains_or_empty f.user (email_or (actor_of users a.actor_id) a.actor_email))
              && contains_or_empty f.ip a.ip))

  unfoldable pub select_events : LoginEventFilter → Tables → List LoginEventRecord
  unfolding events_of sort_events matches
  select_events f t =
      events_of t.users (sort_events f.oldest_first (keep (matches t.users f) t.audit_logs))

  -- One page of rows, and the number of all that match. The caller has checked that both numbers
  -- are at least 1; their offset is an int and wraps.
  unfoldable pub list : LoginEventFilter → (page per_page : ℕ) → M (List LoginEventRecord × ℕ)
  list f page per_page = do
    total ← query (λ t. length (keep (matches t.users f) t.audit_logs))
    rows ← query (λ t. take per_page (drop (int64 ((page - 1) * per_page)) (select_events f t)))
    done (rows, total)
