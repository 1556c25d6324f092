-- ===== src/Services/Impersonation.antt =====
-- services/impersonation.go: who may act as whom. The host's hook is a part of the policy.
pub mod Policies
use goravel_authkit.Base.{
  ℕ, Bool, true, false, not, ◌&&◌, ◌||◌, List, [], ◌∷◌, Option, none, some, if◌then◌else◌, is_empty,
}
use goravel_authkit.Text.{Str, lit, mem_str}
use goravel_authkit.Errors.{Err, forbidden, internal, Result, ok, err}

-- contracts/impersonation.go
pub record Principal : Type 0 where
  pub guard : Str
  pub user_id : ℕ
  pub email : Str
  pub role : Str

-- The gate of one actor guard. `hook` is contracts.ImpersonationPolicy(), `none` if the host
-- registered none.
pub record Policy : Type 0 where
  pub roles : List Str
  pub target_guards : List Str
  pub protected_roles : List Str
  pub hook : Option (Principal → Str → Principal → Result Bool)

unfoldable pub can_target_guard : Policy → Str → Bool
can_target_guard p guard = mem_str p.target_guards (lit "*") || mem_str p.target_guards guard

unfoldable pub run_hook :
    Option (Principal → Str → Principal → Result Bool)
    → Principal
    → Str
    → Principal
    → Result (Unit {0})
run_hook none actor guard target = ok tt
run_hook (some h) actor guard target = elim (h actor guard target) [
  | err e ↦ err (internal e)
  | ok allowed ↦ if allowed then ok tt else err forbidden
]

unfoldable pub authorize : Policy → Principal → Str → Principal → Result (Unit {0})
authorize p actor guard target =
    if not (is_empty p.roles) && not (mem_str p.roles actor.role)
    then err forbidden
    else if not (can_target_guard p guard)
    then err forbidden
    else if mem_str p.protected_roles target.role
    then err forbidden
    else run_hook p.hook actor guard target
