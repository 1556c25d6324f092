-- ===== src/Middleware/RateLimit/Waiting.antt =====
-- What a refused client is told, and a store whose buckets have different windows.
use native.Mathlib.Nat.{le_trans}
use goravel_authkit.Base.{
  ℕ, ◌+◌, ◌≡◌, ◌≤◌, ◌<◌, refl, sym, ap, Bool, true, false, not, ◌∙◌, ◌||◌, List, [], ◌∷◌, ◌++◌,
  Option, none, some, arith, leb, lt→ltb, ◌==◌, length, Bool-cases, inl, inr,
}
use goravel_authkit.Text.{Str, lit, str_eq}
use goravel_authkit.Text.Laws.{str_eq_refl}
use goravel_authkit.Middleware.RateLimit.{
  Requests, MemoryRateLimitStore, RateLimitResult, second, get, put, fresh, record_attempt, hit,
  retry_after,
}
use goravel_authkit.Middleware.RateLimit.Window.{get-put, get-sweep, put-Keyed, Keyed}

length-fresh : (window now : ℕ) (ts : List ℕ) → length (fresh window now ts) ≤ length ts
unfolding fresh
length-fresh window now [] = omega arith
length-fresh window now (t ∷ ts) = ground (arith, length-fresh window now ts)

-- Once the wait is over the oldest attempt is out of the window.
waited :
    (window now : ℕ) (ts : List ℕ) (limit : ℕ)
    → length ts ≤ limit
    → 0 < limit
    → leb limit (length (fresh window (now + retry_after window now ts) ts)) ≡ false
unfolding fresh retry_after
waited window now [] limit h pos = ground arith
waited window now (t ∷ ts) limit h pos =
    ground (arith, length-fresh window (now + retry_after window now (t ∷ ts)) ts)

retry_after_lower : (window now : ℕ) (ts : List ℕ) → second ≤ retry_after window now ts
unfolding retry_after
retry_after_lower window now ts = ground arith

abbrev pub allowed_of : Option (RateLimitResult × MemoryRateLimitStore) → Option Bool
allowed_of none = none
allowed_of (some (r, store)) = some r.allowed

abbrev is_invalid : Str → ℕ → ℕ → Bool
is_invalid key limit window = str_eq key (lit "") || limit == 0 || window == 0

module _ (key : Str) (limit window now : ℕ) (store : MemoryRateLimitStore) where
  abbrev valid : List ℕ
  valid = fresh window now (get key store.requests)

  hit_invalid : is_invalid key limit window ≡ true → hit key limit window now store ≡ none
  unfolding hit
  hit_invalid bad = rw (bad, hit)

  hit_refused :
      is_invalid key limit window ≡ false
      → leb limit (length valid) ≡ true
      → hit key limit window now store
        ≡ some (
          record { allowed = false; retry_after = retry_after window now valid },
          record store { requests = put key valid store.requests },
        )
  unfolding hit
  hit_refused ok full = rw (ok, hit, full)

  -- Any attempt at a valid bucket is answered by the number of fresh attempts.
  pub allowed_of-hit :
      is_invalid key limit window ≡ false
      → allowed_of (hit key limit window now store) ≡ some (not (leb limit (length valid)))
  unfolding hit
  allowed_of-hit ok = elim (Bool-cases (leb limit (length valid))) [
    | inl full ↦ rw (ok, hit, full)
    | inr room ↦ rw (ok, hit, room)
  ]

  refused-inv :
      (r : RateLimitResult) (store' : MemoryRateLimitStore)
      → hit key limit window now store ≡ some (r, store')
      → r.allowed ≡ false
      → (is_invalid key limit window ≡ false)
        × (r.retry_after ≡ retry_after window now valid)
        × (store'.requests ≡ put key valid store.requests)
  refused-inv r store' e refused = elim (Bool-cases (is_invalid key limit window)) [
    | inl bad ↦ cc (hit_invalid bad, e)
    | inr ok ↦ elim (Bool-cases (leb limit (length valid))) [
      | inr room ↦ cc (allowed_of-hit ok, room, e, refused)
      | inl full ↦ let same = sym e ∙ hit_refused ok full in (ok, ground arith, ground arith)
    ]
  ]

  hit_let_through :
      is_invalid key limit window ≡ false
      → leb limit (length valid) ≡ false
      → hit key limit window now store
        ≡ some (
          record { allowed = true; retry_after = 0 },
          record_attempt window now (put key (valid ++ now ∷ []) store.requests) store.last_sweep,
        )
  unfolding hit
  hit_let_through ok room = rw (ok, hit, room)

  allowed-inv :
      (r : RateLimitResult) (store' : MemoryRateLimitStore)
      → hit key limit window now store ≡ some (r, store')
      → r.allowed ≡ true
      → store'
        ≡ record_attempt window now (put key (valid ++ now ∷ []) store.requests) store.last_sweep
  allowed-inv r store' e allowed = elim (Bool-cases (is_invalid key limit window)) [
    | inl bad ↦ cc (hit_invalid bad, e)
    | inr ok ↦ elim (Bool-cases (leb limit (length valid))) [
      | inl full ↦ cc (allowed_of-hit ok, full, e, allowed)
      | inr room ↦ let same = sym e ∙ hit_let_through ok room in ground arith
    ]
  ]

  -- After an attempt that sweeps, another bucket holds what is fresh by this window.
  swept :
      (k : Str) (store' : MemoryRateLimitStore)
      → Keyed store.requests
      → str_eq key k ≡ false
      → store.last_sweep + window < now
      → store'
        ≡ record_attempt window now (put key (valid ++ now ∷ []) store.requests) store.last_sweep
      → get k store'.requests ≡ fresh window now (get k store.requests)
  unfolding record_attempt
  swept k store' keyed other due e =
      let m : Requests = put key (valid ++ now ∷ []) store.requests in
      let untouched : get k m ≡ get k store.requests =
        rw (get-put key k (valid ++ now ∷ []) store.requests, other) refl in
      rw (e, lt→ltb (store.last_sweep + window) now due, record_attempt)
        (get-sweep k window now m (put-Keyed key (valid ++ now ∷ []) store.requests keyed)
          ∙ ap (fresh window now) untouched)

positive : (key : Str) (limit window : ℕ) → is_invalid key limit window ≡ false → 0 < limit
positive key limit window h = ground arith

-- A client that is refused while its bucket holds no more attempts than the limit is told to wait
-- for a second or more, and its next attempt after that wait is let through, if no other attempt
-- comes between.
pub hit-hit_retry_after :
    (key : Str) (limit window now : ℕ) (store store' : MemoryRateLimitStore) (r : RateLimitResult)
    → length (get key store.requests) ≤ limit
    → hit key limit window now store ≡ some (r, store')
    → r.allowed ≡ false
    → (second ≤ r.retry_after)
      × (allowed_of (hit key limit window (now + r.retry_after) store') ≡ some true)
hit-hit_retry_after key limit window now store store' r few e refused =
    let (ok, wait, kept) = refused-inv key limit window now store r store' e refused in
    let bucket = fresh window now (get key store.requests) in
    let again : get key store'.requests ≡ bucket =
      rw (kept, get-put key key bucket store.requests, str_eq_refl key) refl in
    let few' = le_trans (length-fresh window now (get key store.requests)) few in
    let room = waited window now bucket limit few' (positive key limit window ok) in
    (
      rw wait (retry_after_lower window now bucket),
      allowed_of-hit key limit window (now + r.retry_after) store' ok
          ∙ ap (λ b. some (not b)) {y = false} (rw (again, wait) room),
    )

none_fresh : (limit window now : ℕ) → 0 < limit → leb limit (length (fresh window now [])) ≡ false
unfolding fresh
none_fresh limit window now h = ground arith

-- With two windows in one store that has each key once: an attempt at the bucket of the short
-- window that is let through, later after the last sweep than that window, empties a bucket whose
-- attempts are all older than that window. The next attempt at the other bucket is then let
-- through, and without the first attempt it is refused, if it is full by its own window.
pub short_window_reopens :
    (long_key short_key : Str) (limit limit' long short now : ℕ)
    (store store' : MemoryRateLimitStore) (r : RateLimitResult)
    → Keyed store.requests
    → str_eq short_key long_key ≡ false
    → is_invalid long_key limit long ≡ false
    → limit ≤ length (fresh long now (get long_key store.requests))
    → fresh short now (get long_key store.requests) ≡ []
    → store.last_sweep + short < now
    → hit short_key limit' short now store ≡ some (r, store')
    → r.allowed ≡ true
    → (allowed_of (hit long_key limit long now store) ≡ some false)
      × (allowed_of (hit long_key limit long now store') ≡ some true)
short_window_reopens long_key short_key limit limit' long short now store store' r keyed other ok
      full old due e allowed =
    let emptied : get long_key store'.requests ≡ [] =
      swept short_key limit' short now store long_key store' keyed other due
        (allowed-inv short_key limit' short now store r store' e allowed)
      ∙ old in
    (
      allowed_of-hit long_key limit long now store ok
          ∙ ap (λ b. some (not b)) {y = true} (ground arith),
      allowed_of-hit long_key limit long now store' ok
          ∙ ap (λ b. some (not b)) {y = false}
              (rw emptied (none_fresh limit long now (positive long_key limit long ok))),
    )
