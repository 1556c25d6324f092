-- ===== src/Tests/Limits.antt =====
-- The rate limit at concrete inputs.
use goravel_authkit.Base.{ℕ, ◌≡◌, ◌≤◌, refl, true, false, List, [], ◌∷◌, some, arith}
use goravel_authkit.Text.{lit, str_eq}
use goravel_authkit.Middleware.RateLimit.{
  MemoryRateLimitStore, hit, second, get, put, fresh, record_attempt, retry_after, sweep,
}
use goravel_authkit.Middleware.RateLimit.Refinement.{
  Attempt, store_run, spec_run, store_run-spec_run,
}
use goravel_authkit.Middleware.RateLimit.Waiting.{
  hit-hit_retry_after, short_window_reopens, allowed_of,
}

abbrev empty : MemoryRateLimitStore
empty = record { requests = []; last_sweep = 0 }

abbrev attempt : ℕ → Attempt
attempt now = record { key = lit "k"; limit = 1; now = now }

abbrev attempts : List Attempt
attempts = attempt 10 ∷ attempt 20 ∷ attempt 111 ∷ []

store_run-spec_run_example : store_run 100 attempts empty ≡ spec_run 100 attempts (λ k. [])
unfolding get
store_run-spec_run_example =
    store_run-spec_run 100 0 attempts empty (λ k. [])
      (omega arith, (omega arith, (omega arith, tt))) (record { keyed = tt; same = λ k. refl })

abbrev full : MemoryRateLimitStore
full = record { requests = (lit "k", 10 ∷ []) ∷ []; last_sweep = 0 }

hit-hit_retry_after_example :
    (second ≤ 1_000_000_000) × (allowed_of (hit (lit "k") 1 100 1_000_000_050 full) ≡ some true)
unfolding hit get put fresh record_attempt retry_after str_eq
hit-hit_retry_after_example =
    hit-hit_retry_after (lit "k") 1 100 50 full full
      (record { allowed = false; retry_after = 1_000_000_000 }) (omega arith) refl refl

short_window_reopens_example :
    (allowed_of (hit (lit "k") 1 100 50 full) ≡ some false)
    × (allowed_of
          (hit (lit "k") 1 100 50 (record { requests = (lit "j", 50 ∷ []) ∷ []; last_sweep = 50 }))
        ≡ some true)
unfolding hit get put fresh record_attempt retry_after str_eq sweep
short_window_reopens_example =
    short_window_reopens (lit "k") (lit "j") 1 5 100 20 50 full
      (record { requests = (lit "j", 50 ∷ []) ∷ []; last_sweep = 50 })
      (record { allowed = true; retry_after = 0 }) (tt, tt) refl refl (omega arith) refl
      (omega arith) refl refl
