-- ===== src/Middleware/RateLimit.antt =====
-- http/middleware/rate_limit.go: the process-local store of sliding windows. A call of `Hit` holds
-- the mutex throughout, so it is one step of the store. Instants and durations are nanoseconds.
pub mod Window
pub mod Refinement
pub mod Waiting
use goravel_authkit.Base.{
  ℕ, ◌+◌, ◌-◌, ◌/◌, Bool, true, false, not, ◌||◌, List, [], ◌∷◌, ◌++◌, Option, none, some, ltb, leb,
  ◌==◌, if◌then◌else◌, length, keep, is_empty,
}
use goravel_authkit.Text.{Str, lit, str_eq}

abbrev pub second : ℕ
second = 1_000_000_000

-- The map from bucket keys to attempts, oldest first; an absent key has none.
abbrev pub Requests : Type 0
Requests = List (Str × List ℕ)

pub record MemoryRateLimitStore : Type 0 where
  pub requests : Requests
  pub last_sweep : ℕ

-- contracts/rate_limit.go
pub record RateLimitResult : Type 0 where
  pub allowed : Bool
  pub retry_after : ℕ

unfoldable pub get : Str → Requests → List ℕ
get key [] = []
get key ((k, ts) ∷ m) = if str_eq k key then ts else get key m

unfoldable pub put : Str → List ℕ → Requests → Requests
put key ts [] = (key, ts) ∷ []
put key ts ((k, us) ∷ m) = if str_eq k key then (k, ts) ∷ m else (k, us) ∷ put key ts m

-- attemptedAt.After(now.Add(-window))
abbrev pub is_fresh : ℕ → ℕ → ℕ → Bool
is_fresh window now at = ltb now (at + window)

unfoldable pub fresh : ℕ → ℕ → List ℕ → List ℕ
fresh window now ts = keep (is_fresh window now) ts

-- sweepLocked: every bucket loses its old attempts, and an empty one is deleted.
unfoldable pub sweep : ℕ → ℕ → Requests → Requests
unfolding fresh
sweep window now [] = []
sweep window now ((k, ts) ∷ m) =
    let rest = sweep window now m in
    let valid = fresh window now ts in if is_empty valid then rest else (k, valid) ∷ rest

abbrev pub oldest : List ℕ → ℕ
oldest [] = 0
oldest (t ∷ ts) = t

-- valid[0].Add(window).Sub(now), at least a second.
unfoldable pub retry_after : ℕ → ℕ → List ℕ → ℕ
retry_after window now valid =
    let wait = oldest valid + window - now in if ltb wait second then second else wait

unfoldable pub record_attempt : ℕ → ℕ → Requests → ℕ → MemoryRateLimitStore
unfolding sweep
record_attempt window now requests last_sweep =
    if ltb (last_sweep + window) now
    then record { requests = sweep window now requests; last_sweep = now }
    else record { requests = requests; last_sweep = last_sweep }

-- `none` is the error for an invalid configuration of the bucket.
unfoldable pub hit :
    (key : Str)
    → (limit window now : ℕ) → MemoryRateLimitStore
    → Option (RateLimitResult × MemoryRateLimitStore)
unfolding fresh retry_after record_attempt
hit key limit window now store =
    let valid = fresh window now (get key store.requests) in
    if str_eq key (lit "") || limit == 0 || window == 0
    then none
    else if leb limit (length valid)
    then some (
      record { allowed = false; retry_after = retry_after window now valid },
      record store { requests = put key valid store.requests },
    )
    else some (
      record { allowed = true; retry_after = 0 },
      record_attempt window now (put key (valid ++ now ∷ []) store.requests) store.last_sweep,
    )

-- The bucket of one dimension and one identifier of a guard; the identifier is hashed.
unfoldable pub bucket_key : (sha256_hex : Str → Str) → (namespace dimension identifier : Str) → Str
bucket_key sha256_hex namespace dimension identifier =
    namespace ++ (lit ":" ++ (dimension ++ (lit ":" ++ sha256_hex identifier)))

-- The seconds of Retry-After, rounded up.
unfoldable pub retry_seconds : ℕ → ℕ
retry_seconds retry_after = (retry_after + second - 1) / second
