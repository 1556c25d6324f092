-- ===== src/Middleware/RateLimit/Refinement.antt =====
-- The store of rate_limit.go against its specification: a log of all attempts that were let
-- through, of which a bucket's limit counts those inside the window.
use mathlib.Core.Path.{ap₂}
use goravel_authkit.Base.{
  ℕ, ◌+◌, ◌≡◌, ◌≤◌, refl, sym, ap, ◌∙◌, Bool, true, false, ◌||◌, List, [], ◌∷◌, ◌++◌, Option, none,
  some, arith, ltb, leb, ◌==◌, if◌then◌else◌, length, Bool-cases, inl, inr,
}
use goravel_authkit.Text.{Str, lit, str_eq}
use goravel_authkit.Text.Laws.{str_eq_iff}
use goravel_authkit.Middleware.RateLimit.{
  Requests, MemoryRateLimitStore, get, put, fresh, record_attempt, hit,
}
use goravel_authkit.Middleware.RateLimit.Window.{
  get-put, fresh-fresh, fresh-append, Keyed, put-Keyed, sweep-Keyed, get-sweep,
}

pub record Attempt : Type 0 where
  pub key : Str
  pub limit : ℕ
  pub now : ℕ

-- What one attempt answers: `none` for an invalid bucket.
abbrev pub Answer : Type 0
Answer = Option Bool

-- The specification: never forget.
abbrev pub Log : Type 0
Log = Str → List ℕ

abbrev pub extend : Str → ℕ → Log → Log
extend key now log k = if str_eq key k then log k ++ now ∷ [] else log k

unfoldable pub spec_hit : (window : ℕ) → Attempt → Log → Answer × Log
spec_hit window a log =
    if str_eq a.key (lit "") || a.limit == 0 || window == 0
    then (none, log)
    else if leb a.limit (length (fresh window a.now (log a.key)))
    then (some false, log)
    else (some true, extend a.key a.now log)

unfoldable pub spec_run : (window : ℕ) → List Attempt → Log → List Answer
unfolding spec_hit
spec_run window [] log = []
spec_run window (a ∷ as') log = let r = spec_hit window a log in r.0 ∷ spec_run window as' r.1

-- The store run through the same attempts.
unfoldable pub store_hit :
    (window : ℕ) → Attempt → MemoryRateLimitStore → Answer × MemoryRateLimitStore
store_hit window a store = elim (hit a.key a.limit window a.now store) [
  | none ↦ (none, store)
  | some (r, store') ↦ (some r.allowed, store')
]

unfoldable pub store_run : (window : ℕ) → List Attempt → MemoryRateLimitStore → List Answer
unfolding store_hit
store_run window [] store = []
store_run window (a ∷ as') store =
    let r = store_hit window a store in r.0 ∷ store_run window as' r.1

abbrev pub Ordered : ℕ → List Attempt → Type 0
Ordered t [] = Unit
Ordered t (a ∷ as') = (t ≤ a.now) × Ordered a.now as'

-- From `now` on, store and log hold the same attempts inside the window.
pub record Agrees (window now : ℕ) (store : MemoryRateLimitStore) (log : Log) : Type 0 where
  pub keyed : Keyed store.requests
  pub same : (k : Str) → fresh window now (get k store.requests) ≡ fresh window now (log k)

module _ (window : ℕ) where
  Agrees-later :
      (now later : ℕ) (store : MemoryRateLimitStore) (log : Log)
      → now ≤ later
      → Agrees window now store log
      → Agrees window later store log
  Agrees-later now later store log h a = record {
    keyed = a.keyed;
    same = λ k.
        sym (fresh-fresh window now later (get k store.requests) h)
        ∙ ap (fresh window later) (a.same k)
        ∙ fresh-fresh window now later (log k) h;
  }

  -- A refused attempt leaves the bucket with what is fresh of it.
  refused-Agrees :
      (key : Str) (now : ℕ) (store : MemoryRateLimitStore) (log : Log)
      → Agrees window now store log
      → Agrees window now
          (record store {
            requests = put key (fresh window now (get key store.requests)) store.requests;
          })
          log
  refused-Agrees key now store log a = record {
    keyed = put-Keyed key _ store.requests a.keyed;
    same = λ k. ground (
      arith,
      get-put key k (fresh window now (get key store.requests)) store.requests,
      fresh-fresh window now now (get key store.requests),
      str_eq_iff key k,
      a.same k,
    );
  }

  allowed-same :
      (key : Str) (now : ℕ) (m : Requests) (log : Log) (k : Str)
      → ((j : Str) → fresh window now (get j m) ≡ fresh window now (log j))
      → fresh window now (get k (put key (fresh window now (get key m) ++ now ∷ []) m))
        ≡ fresh window now (extend key now log k)
  allowed-same key now m log k same = ground (
    arith,
    get-put key k (fresh window now (get key m) ++ now ∷ []) m,
    fresh-append window now (fresh window now (get key m)) (now ∷ []),
    fresh-append window now (log k) (now ∷ []),
    fresh-fresh window now now (get key m),
    str_eq_iff key k,
    same k,
  )

  allowed-Agrees :
      (key : Str) (now : ℕ) (store : MemoryRateLimitStore) (log : Log)
      → Agrees window now store log
      → Agrees window now
          (record_attempt window now
            (put key (fresh window now (get key store.requests) ++ now ∷ []) store.requests)
            store.last_sweep)
          (extend key now log)
  unfolding record_attempt
  allowed-Agrees key now store log a =
      let m : Requests =
        put key (fresh window now (get key store.requests) ++ now ∷ []) store.requests in
      let keyed = put-Keyed key _ store.requests a.keyed in
      let same = λ (k : Str). allowed-same key now store.requests log k a.same in
      elim (Bool-cases (ltb (store.last_sweep + window) now)) [
        | inr kept ↦ rw (kept, record_attempt) (record { keyed = keyed; same = same })
        | inl swept ↦
            rw (swept, record_attempt)
              (record {
                keyed = sweep-Keyed window now m keyed;
                same = λ k.
                    ap (fresh window now) (get-sweep k window now m keyed)
                    ∙ fresh-fresh window now now (get k m) (omega arith)
                    ∙ same k;
              })
      ]

  -- One attempt: the same answer, and agreement again.
  store_hit-spec_hit :
      (a : Attempt) (store : MemoryRateLimitStore) (log : Log)
      → Agrees window a.now store log
      → ((store_hit window a store).0 ≡ (spec_hit window a log).0)
        × Agrees window a.now (store_hit window a store).1 (spec_hit window a log).1
  unfolding store_hit spec_hit hit
  store_hit-spec_hit a store log agrees =
      elim (Bool-cases (str_eq a.key (lit "") || a.limit == 0 || window == 0)) [
        | inl invalid ↦ rw (invalid, store_hit, spec_hit, hit) (refl, agrees)
        | inr valid ↦ elim (Bool-cases (leb a.limit (length (fresh window a.now (log a.key))))) [
          | inl full ↦
              rw (valid, store_hit, spec_hit, hit, agrees.same a.key, full)
                (refl, rw (← agrees.same a.key) (refused-Agrees a.key a.now store log agrees))
          | inr room ↦
              rw (valid, store_hit, spec_hit, hit, agrees.same a.key, room)
                (refl, rw (← agrees.same a.key) (allowed-Agrees a.key a.now store log agrees))
        ]
      ]

  -- Any attempts whose times do not go back are answered by the store as by a log that forgets
  -- nothing: an attempt is let through exactly when fewer than its limit were let through for its
  -- key inside the window, provided that all buckets of the store have this one window.
  pub store_run-spec_run :
      (now : ℕ) (attempts : List Attempt) (store : MemoryRateLimitStore) (log : Log)
      → Ordered now attempts
      → Agrees window now store log
      → store_run window attempts store ≡ spec_run window attempts log
  unfolding store_run spec_run
  store_run-spec_run now [] store log h agrees = refl
  store_run-spec_run now (a ∷ attempts) store log h agrees =
      let (same, agrees') =
        store_hit-spec_hit a store log (Agrees-later now a.now store log h.0 agrees) in
      ap₂ ◌∷◌ same (
        store_run-spec_run a.now attempts (store_hit window a store).1 (spec_hit window a log).1 h.1
          agrees')
