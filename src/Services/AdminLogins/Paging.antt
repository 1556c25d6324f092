-- ===== src/Services/AdminLogins/Paging.antt =====
-- services/admin_logins.go: the pages of the login history, taken together.
use native.Mathlib.Nat.{lt-div-mul-add}
use goravel_authkit.Base.{
  pos, int64, int64-fits, ℕ, suc, ◌+◌, ◌≡◌, ◌≤◌, ◌<◌, refl, ap, sym, ◌∙◌, Bool, true, false, List,
  [], ◌∷◌, ◌++◌, leb, arith, ◌==◌, length, Bool-cases, inl, inr, keep,
}
use goravel_authkit.Text.{Str}
use goravel_authkit.Errors.{ok}
use goravel_authkit.Models.{User}
use goravel_authkit.Store.{Db, Tables, done, machine}
use goravel_authkit.Base.{
  pos, int64, int64-fits, ◌*◌, ◌-◌, ◌/◌, zero, take, drop, take-add, take-all,
}
use goravel_authkit.Text.{trim_space, to_lower, byte_len}
use goravel_authkit.Models.{AuditLog}
use goravel_authkit.Repositories.LoginEvents
use goravel_authkit.Repositories.LoginEvents.{
  LoginEventRecord, LoginEventFilter, select_events, events_of, sort_events, insert_event, matches,
}
use goravel_authkit.Services.Audit.{login_actions}
use goravel_authkit.Services.AdminLogins.{list, total_pages, method_action, sort_order}

-- The items of the first `n` pages, one page after the other.
abbrev pub upto {ℓ} : {A : Type ℓ} → (per_page : ℕ) → List A → ℕ → List A
upto per_page rows zero = []
upto per_page rows (suc n) = upto per_page rows n ++ take per_page (drop (n * per_page) rows)

module _ {A : Type 0} where
  upto-take :
      (per_page : ℕ) (rows : List A) (n : ℕ) → upto per_page rows n ≡ take (n * per_page) rows
  upto-take per_page rows zero = ap (λ k. take k rows) {x = 0} {y = 0 * per_page} (omega arith)
  upto-take per_page rows (suc n) =
      ap (λ xs. xs ++ take per_page (drop (n * per_page) rows)) (upto-take per_page rows n)
      ∙ (sym (take-add (n * per_page) per_page rows) ∙ ap (λ k. take k rows) (omega arith))

rounded : (total per_page q : ℕ) → 1 ≤ per_page → total + per_page - 1 < q + per_page → total ≤ q
rounded total per_page q one h = omega arith

total_pages-cover :
    (total per_page : ℕ) → 1 ≤ per_page → total ≤ total_pages total per_page * per_page
unfolding total_pages
total_pages-cover total per_page one = elim (Bool-cases (total == 0)) [
  | inl e ↦ rw e (ground arith)
  | inr e ↦ rw e (
      rounded total per_page ((total + per_page - 1) / per_page * per_page) one
        (lt-div-mul-add {a = total + per_page - 1} {b = per_page} one))
]

length-insert_event :
    (o : Bool) (a : AuditLog) (rows : List AuditLog)
    → length (insert_event o a rows) ≡ suc (length rows)
unfolding insert_event
length-insert_event o a [] = refl
length-insert_event o a (b ∷ rows) = ground (arith, length-insert_event o a rows)

length-sort_events : (o : Bool) (rows : List AuditLog) → length (sort_events o rows) ≡ length rows
unfolding sort_events
length-sort_events o [] = refl
length-sort_events o (a ∷ rows) =
    length-insert_event o a (sort_events o rows) ∙ ap suc (length-sort_events o rows)

length-events_of :
    (users : List User) (rows : List AuditLog) → length (events_of users rows) ≡ length rows
unfolding events_of
length-events_of users [] = refl
length-events_of users (a ∷ rows) = ap suc (length-events_of users rows)

module _ (db_lower : Str → Str) (lower_table : ℕ → ℕ) where
  length-select_events :
      (f : LoginEventFilter) (t : Tables)
      → length (select_events db_lower lower_table f t)
        ≡ length (keep (matches db_lower lower_table t.users f) t.audit_logs)
  unfolding select_events
  length-select_events f t =
      length-events_of t.users
        (sort_events f.oldest_first (keep (matches db_lower lower_table t.users f) t.audit_logs))
      ∙ length-sort_events f.oldest_first
          (keep (matches db_lower lower_table t.users f) t.audit_logs)

  abbrev at_rest : Tables → Db
  at_rest tables = record { tables = tables; faults = [] }

  -- The filter of a query whose method and order are valid.
  abbrev pub filter_of : (user ip action : Str) → (oldest_first : Bool) → LoginEventFilter
  filter_of user ip action oldest_first = record {
    actions = login_actions;
    user = trim_space user;
    ip = trim_space ip;
    method_action = action;
    oldest_first = oldest_first;
  }

  -- For a query of valid sizes, filters, method and order, no call failing: each page whose
  -- offset fits into an int64 has its slice of all matching sign-ins, with their number, and all
  -- pages that the answer announces, one after the other, are all matching sign-ins.
  pub list_complete :
      (k per_page : ℕ) (user ip method sort action : Str) (oldest_first : Bool) (t : Tables)
      → 1 ≤ per_page
      → leb per_page 100 ≡ true
      → k * per_page < 9_223_372_036_854_775_808
      → leb (byte_len (trim_space user)) 255 ≡ true
      → leb (byte_len (trim_space ip)) 64 ≡ true
      → method_action (to_lower lower_table (trim_space method)) ≡ ok action
      → sort_order (to_lower lower_table (trim_space sort)) ≡ ok oldest_first
      → (events : List LoginEventRecord) × (events
          ≡ select_events db_lower lower_table (filter_of user ip action oldest_first) t)
        × (list db_lower lower_table
              (record {
                page = pos (suc k);
                per_page = pos per_page;
                user = user;
                ip = ip;
                method = method;
                sort = sort;
              })
              (at_rest t)
            ≡ done
                (record {
                  items = take per_page (drop (k * per_page) events);
                  page = suc k;
                  per_page = per_page;
                  total = length events;
                  total_pages = total_pages (length events) per_page;
                })
                (at_rest t))
        × (upto per_page events (total_pages (length events) per_page) ≡ events)
  unfolding list machine LoginEvents.list
  list_complete k per_page user ip method sort action oldest_first t one size fits u i m s =
      let f = filter_of user ip action oldest_first in
      let events = select_events db_lower lower_table f t in
      let nonzero : (per_page == 0) ≡ false = ground arith in
      let first_page : (suc k == 0) ≡ false = ground arith in
      let from_1 : leb 1 (suc k) ≡ true = ground arith in
      let positive : leb 1 per_page ≡ true = ground arith in
      let offset : int64 ((suc k - 1) * per_page) ≡ k * per_page =
        ap (λ n. int64 (n * per_page)) {x = suc k - 1} {y = k} (omega arith)
        ∙ int64-fits (k * per_page) fits in
      (
        events,
        refl,
        rw
            (
              first_page,
              from_1,
              nonzero,
              positive,
              size,
              u,
              i,
              m,
              s,
              length-select_events f t,
              offset,
            )
            refl,
        upto-take per_page events (total_pages (length events) per_page)
            ∙ take-all (total_pages (length events) per_page * per_page) events
                (total_pages-cover (length events) per_page one),
      )
