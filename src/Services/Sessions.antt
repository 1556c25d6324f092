-- ===== src/Services/Sessions.antt =====
-- services/sessions.go: one row for each login; a session whose row is gone is terminated.
pub mod Termination
use goravel_authkit.Base.{
  ℕ, ◌*◌, Bool, true, false, not, ◌&&◌, List, [], ◌∷◌, Option, none, some, ltb, ◌==◌, if◌then◌else◌,
}
use goravel_authkit.Text.{Str, lit, str_eq}
use goravel_authkit.Errors.{Err, not_found, validation}
use goravel_authkit.Models.{AuthSession}
use goravel_authkit.Store.{
  Db, Outcome, done, fail, M, ◌>>=◌, ◌>>◌, check, or_internal, ignore, branch,
}
use goravel_authkit.Repositories.Sessions

abbrev pub default_session_active_window : ℕ
default_session_active_window = 2 * 3600 * 1_000_000_000

unfoldable pub new_sessions : ℕ → ℕ
new_sessions window = if ltb 0 window then window else default_session_active_window

pub record SessionView : Type 0 where
  pub id : ℕ
  pub ip : Str
  pub user_agent : Str
  pub created_at : ℕ
  pub last_active_at : ℕ
  pub is_current : Bool

-- gorm sets created_at to the time of the insert.
unfoldable pub track :
    (id now : ℕ) → (session_id : Str) → (user : ℕ) → (ip agent : Str) → M (Unit {0})
track id now session_id user ip agent = branch (str_eq session_id (lit "")) (done tt) (
    ignore (Sessions.delete_by_session_id session_id)
    >> or_internal (
        Sessions.create (record {
          id = id;
          session_id = session_id;
          user_id = user;
          ip = ip;
          user_agent = agent;
          created_at = now;
          last_active_at = now;
        })))

-- Does the session still exist?
unfoldable pub touch : (now : ℕ) → (session_id : Str) → M Bool
touch now session_id =
    branch (str_eq session_id (lit "")) (done true)
      (or_internal (Sessions.touch_last_active session_id now) >>= (λ rows. done (ltb 0 rows)))

unfoldable pub view : Str → AuthSession → SessionView
view current s = record {
  id = s.id;
  ip = s.ip;
  user_agent = s.user_agent;
  created_at = s.created_at;
  last_active_at = s.last_active_at;
  is_current = str_eq s.session_id current;
}

unfoldable pub views : Str → List AuthSession → List SessionView
unfolding view
views current [] = []
views current (s ∷ rows) = view current s ∷ views current rows

unfoldable pub list : (window now user : ℕ) → (current : Str) → M (List SessionView)
list window now user current = do
  rows ← or_internal (Sessions.list_by_user user window now)
  done (views current rows)

unfoldable pub owned_by : Option AuthSession → ℕ → M AuthSession
owned_by none user = fail not_found
owned_by (some s) user = check (s.user_id == user) not_found >> done s

unfoldable pub terminate : (user public_id : ℕ) → (current : Str) → M (Unit {0})
terminate user public_id current = do
  row ← or_internal (Sessions.find_by_id public_id)
  s ← owned_by row user
  check (not (str_eq s.session_id current))
      (validation (lit "cannot terminate the current session"))
  or_internal (Sessions.delete_by_id public_id)

unfoldable pub terminate_others : (user : ℕ) → (current : Str) → M (Unit {0})
terminate_others user current = or_internal (Sessions.delete_others_for_user user current)

unfoldable pub forget : Str → M (Unit {0})
forget session_id =
    branch (str_eq session_id (lit "")) (done tt)
      (or_internal (Sessions.delete_by_session_id session_id))

unfoldable pub forget_all_for_user : ℕ → M (Unit {0})
forget_all_for_user user = or_internal (Sessions.delete_by_user user)

unfoldable pub prune_stale : (window now : ℕ) → M (Unit {0})
prune_stale window now = or_internal (Sessions.delete_stale window now)
