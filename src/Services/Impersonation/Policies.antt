-- ===== src/Services/Impersonation/Policies.antt =====
-- services/impersonation.go: exactly when an impersonation is authorised.
use goravel_authkit.Base.{
  ◌≡◌, refl, Bool, true, false, Option, none, some, arith, ◌↔◌, ◌⊎◌, is_empty,
}
use goravel_authkit.Text.{Str, lit, mem_str}
use goravel_authkit.Errors.{Result, ok}
use goravel_authkit.Services.Impersonation.{
  Principal, Policy, can_target_guard, run_hook, authorize,
}

-- The hook of the host is absent or agrees.
abbrev pub HookAgrees :
    Option (Principal → Str → Principal → Result Bool) → Principal → Str → Principal → Type 0
HookAgrees none actor guard target = Unit
HookAgrees (some h) actor guard target = h actor guard target ≡ ok true

module _ (actor : Principal) (guard : Str) (target : Principal) where
  hook-agrees :
      (hook : Option (Principal → Str → Principal → Result Bool))
      → run_hook hook actor guard target ≡ ok tt
      → HookAgrees hook actor guard target
  unfolding run_hook
  hook-agrees none e = tt
  hook-agrees (some h) e = ground arith

  agrees-hook :
      (hook : Option (Principal → Str → Principal → Result Bool))
      → HookAgrees hook actor guard target
      → run_hook hook actor guard target ≡ ok tt
  unfolding run_hook
  agrees-hook none e = refl
  agrees-hook (some h) e = rw e refl

-- Authorize agrees exactly if the role of the actor is listed or no roles are, the guard of the
-- target is listed or "*" is, the role of the target is not protected, and the hook of the host,
-- if there is one, agrees.
pub authorize_iff :
    (p : Policy) (actor : Principal) (guard : Str) (target : Principal)
    → (authorize p actor guard target ≡ ok tt) ↔ (
        ((is_empty p.roles ≡ true) ⊎ (mem_str p.roles actor.role ≡ true))
        × (((mem_str p.target_guards (lit "*")) ≡ true) ⊎ (mem_str p.target_guards guard ≡ true))
        × (mem_str p.protected_roles target.role ≡ false)
        × HookAgrees p.hook actor guard target)
unfolding authorize can_target_guard
authorize_iff p actor guard target = (
  λ e. (
    ground arith,
    ground arith,
    ground arith,
    hook-agrees actor guard target p.hook (ground arith),
  ),
  λ h. ground (arith, agrees-hook actor guard target p.hook h.3),
)
