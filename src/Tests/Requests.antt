-- ===== src/Tests/Requests.antt =====
-- Requests at concrete inputs.
use goravel_authkit.Base.{pos, ℕ, ◌+◌, ◌≡◌, refl, true, false, [], ◌∷◌, Option, some, ◌↔◌}
use goravel_authkit.Text.{Str, lit, str_eq}
use goravel_authkit.Store.{Tables, done}
use goravel_authkit.Store.Laws.{Ensures}
use goravel_authkit.Text.{trim_space, trim_left, is_space, to_lower, contains, byte_len}
use goravel_authkit.Models.{is_disabled}
use goravel_authkit.Tests.Sample.{sample, ann, tables, db}
use goravel_authkit.Repositories.Users.{select_id, unless_nil}
use goravel_authkit.Services.Validation.{validate_password}
use goravel_authkit.Services.Auth.{change_password}
use goravel_authkit.Services.ApiTokens
use goravel_authkit.Services.ApiTokens.{new_api_tokens}
use goravel_authkit.Middleware.Guards.{
  next, abort, authenticated, bearer_authenticated, authenticate_any, log_out_and_forget_stamp,
  of_session,
}
use goravel_authkit.Middleware.Guards.Passing.{
  IfPassed, Entitled, Bearer, authenticated-Entitled, bearer_authenticated-Bearer,
  authenticate_any-Bearer,
}
use goravel_authkit.Middleware.Guards.Expiry.{change_password-authenticated}
use goravel_authkit.Middleware.Csrf.{Url, verify_request_origin, is_safe_method}
use goravel_authkit.Middleware.Csrf.Origins.{Vouched, verify_request_origin_iff}
use goravel_authkit.Base.{pos, arith, none, List, length, take, drop, ◌*◌}
use goravel_authkit.Text.{lower_rune}
use goravel_authkit.Models.{AuditLog}
use goravel_authkit.Services.Audit.{AuditEntry}
use goravel_authkit.Services.AdminLogins
use goravel_authkit.Services.AdminLogins.{method_action, sort_order, total_pages}
use goravel_authkit.Services.AdminLogins.Paging.{list_complete, upto, filter_of}
use goravel_authkit.Repositories.LoginEvents.{
  like, literal_contains_pattern, LoginEventRecord, select_events,
}
use goravel_authkit.Repositories.LoginEvents.Like.{like-literal_contains_pattern}

-- A time as a text.
abbrev stamp : ℕ → Str
stamp t = (t + 1) ∷ []

abbrev config : ApiTokens.Config
config = new_api_tokens (lit "read" ∷ []) 0 0 true

authenticated-Entitled_example :
    Ensures
      (λ d t.
        IfPassed (Entitled stamp 1 (some (some (stamp 1))) db.tables.users) d × (t ≡ db.tables))
      (λ t. ⊥)
      (authenticated stamp 1 (some (some (stamp 1))) db)
authenticated-Entitled_example = authenticated-Entitled stamp 1 (some (some (stamp 1))) db

bearer_authenticated-Bearer_example :
    Ensures
      (λ d _. IfPassed (Bearer sample (lit "read" ∷ []) (lit "Bearer gak_sel.v") 60 db.tables) d)
      (λ _. ⊥)
      (bearer_authenticated sample config true (lit "read" ∷ []) (lit "Bearer gak_sel.v") 60 61 db)
bearer_authenticated-Bearer_example =
    bearer_authenticated-Bearer sample config (lit "read" ∷ []) (lit "Bearer gak_sel.v") 60 61 true
      db

authenticate_any-Bearer_example :
    Ensures
      (λ d _. IfPassed (Bearer sample [] (lit "Bearer x") 60 db.tables) d)
      (λ _. ⊥)
      (authenticate_any sample config true []
        (lit "Bearer x")
        60
        61
        stamp
        1
        (some (some (stamp 1)))
        db)
unfolding trim_space trim_left is_space str_eq
authenticate_any-Bearer_example =
    authenticate_any-Bearer sample config [] (lit "Bearer x") 60 61 true stamp 1
      (some (some (stamp 1))) db refl

change_password-authenticated_example :
    (after : Tables) × (at : ℕ) × (change_password sample
        (λ t. t)
        8
        7
        50
        1
        (lit "old secret")
        (lit "new secret")
        (record { tables = tables; faults = [] })
      ≡ done at (record { tables = after; faults = [] }))
    × (authenticated stamp 1 (some (some (stamp 1))) (record { tables = after; faults = [] })
        ≡ done
            (abort log_out_and_forget_stamp 401 (lit "session_expired"))
            (record { tables = after; faults = [] }))
    × (authenticated stamp 1 (some (some (stamp at))) (record { tables = after; faults = [] })
        ≡ done (next (of_session 1)) (record { tables = after; faults = [] }))
unfolding select_id unless_nil is_disabled str_eq validate_password trim_space trim_left byte_len
change_password-authenticated_example =
    change_password-authenticated sample stamp (λ t. t) 8 7 50 1 (lit "old secret")
      (lit "new secret") (lit "hnew secret") tables ann refl refl refl refl refl refl refl refl refl
      refl

-- One address that is parsed.
abbrev parse : Str → Option Url
parse raw = some (record {
  scheme = lit "https";
  host = raw;
  path = lit "";
  raw_query = lit "";
  fragment = lit "";
  has_user = false;
})

verify_request_origin_iff_example :
    (verify_request_origin sample parse
        (lit "App.org." ∷ [])
        (lit "POST")
        (lit "x.org")
        (lit "app.org")
        (lit "")
        (lit "")
      ≡ true)
    ↔ Vouched sample parse (lit "App.org." ∷ []) (lit "x.org") (lit "app.org")
unfolding is_safe_method str_eq
verify_request_origin_iff_example =
    verify_request_origin_iff sample parse (lit "App.org." ∷ []) (lit "POST") (lit "x.org")
      (lit "app.org") (lit "") (lit "") refl refl

like-literal_contains_pattern_example :
    like (literal_contains_pattern (λ c. c) (lit "50%_!")) (lit "a 50%_! b")
    ≡ contains (lit "a 50%_! b") (to_lower (λ c. c) (lit "50%_!"))
like-literal_contains_pattern_example =
    like-literal_contains_pattern (λ c. c) (lit "50%_!") (lit "a 50%_! b")

abbrev sign_in : (id at : ℕ) → AuditLog
sign_in id at = record {
  id = id;
  actor_id = some 1;
  actor_email = lit "ann@x.org";
  action = lit "auth.login";
  resource_type = lit "user";
  resource_id = none;
  metadata = [];
  ip = lit "::1";
  created_at = at;
}

abbrev history : Tables
history = record tables { audit_logs = sign_in 1 10 ∷ sign_in 2 20 ∷ sign_in 3 30 ∷ [] }

list_complete_example :
    (events : List LoginEventRecord) × (events
      ≡ select_events
          (λ s. s)
          (λ c. c)
          (filter_of (λ s. s) (λ c. c) (lit "ANN") (lit "") (lit "auth.login") false)
          history)
    × (AdminLogins.list
          (λ s. s)
          (λ c. c)
          (record {
            page = pos 2;
            per_page = pos 2;
            user = lit "ANN";
            ip = lit "";
            method = lit "password";
            sort = lit "";
          })
          (record { tables = history; faults = [] })
        ≡ done
            (record {
              items = take 2 (drop (1 * 2) events);
              page = 2;
              per_page = 2;
              total = length events;
              total_pages = total_pages (length events) 2;
            })
            (record { tables = history; faults = [] }))
    × (upto 2 events (total_pages (length events) 2) ≡ events)
unfolding byte_len trim_space trim_left is_space method_action sort_order str_eq lower_rune
list_complete_example =
    list_complete (λ s. s) (λ c. c) 1 2 (lit "ANN") (lit "") (lit "password") (lit "")
      (lit "auth.login") false history (omega arith) refl (omega arith) refl refl refl refl

abbrev arrival : AuditEntry
arrival = record {
  actor_id = some 1;
  actor_email = lit "ann@x.org";
  action = lit "auth.login";
  resource_type = lit "user";
  resource_id = none;
  metadata = [];
  ip = lit "::1";
}
