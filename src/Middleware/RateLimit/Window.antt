-- ===== src/Middleware/RateLimit/Window.antt =====
-- Lemmas on the window of a bucket and on a log of all attempts that were let through.
use goravel_authkit.Base.{
  ℕ, ◌≡◌, ◌≤◌, refl, false, List, [], ◌∷◌, ◌++◌, arith, if◌then◌else◌, Bool-cases, inl, inr,
}
use goravel_authkit.Text.{Str, str_eq}
use goravel_authkit.Text.Laws.{str_eq_iff}
use goravel_authkit.Middleware.RateLimit.{Requests, get, put, fresh, sweep}

pub get-put :
    (key k : Str) (ts : List ℕ) (m : Requests)
    → get k (put key ts m) ≡ (if str_eq key k then ts else get k m)
unfolding get put
get-put key k ts [] = refl
get-put key k ts ((j, us) ∷ m) =
    ground (arith, get-put key k ts m, str_eq_iff j key, str_eq_iff j k, str_eq_iff key k)

-- Attempts that are fresh later are fresh now.
pub fresh-fresh :
    (window now later : ℕ) (ts : List ℕ)
    → now ≤ later
    → fresh window later (fresh window now ts) ≡ fresh window later ts
unfolding fresh
fresh-fresh window now later [] h = refl
fresh-fresh window now later (t ∷ ts) h = ground (arith, fresh-fresh window now later ts h)

pub fresh-append :
    (window now : ℕ) (ts us : List ℕ)
    → fresh window now (ts ++ us) ≡ fresh window now ts ++ fresh window now us
unfolding fresh
fresh-append window now [] us = refl
fresh-append window now (t ∷ ts) us = ground (arith, fresh-append window now ts us)

str_eq-sym : (s t : Str) → str_eq s t ≡ false → str_eq t s ≡ false
str_eq-sym s t e = ground (arith, str_eq_iff s t, str_eq_iff t s)

-- Every key has at most one entry.
abbrev Lacks : Str → Requests → Type 0
Lacks key [] = Unit
Lacks key ((k, ts) ∷ m) = (str_eq k key ≡ false) × Lacks key m

abbrev pub Keyed : Requests → Type 0
Keyed [] = Unit
Keyed ((k, ts) ∷ m) = Lacks k m × Keyed m

put-Lacks :
    (key k : Str) (ts : List ℕ) (m : Requests)
    → str_eq key k ≡ false
    → Lacks k m
    → Lacks k (put key ts m)
unfolding put
put-Lacks key k ts [] e h = (e, tt)
put-Lacks key k ts ((j, us) ∷ m) e h = ground (arith, put-Lacks key k ts m e h.1)

pub put-Keyed : (key : Str) (ts : List ℕ) (m : Requests) → Keyed m → Keyed (put key ts m)
unfolding put
put-Keyed key ts [] h = (tt, tt)
put-Keyed key ts ((j, us) ∷ m) h = elim (Bool-cases (str_eq j key)) [
  | inl same ↦ rw (same, put) h
  | inr other ↦
      rw (other, put) (put-Lacks key j ts m (str_eq-sym j key other) h.0, put-Keyed key ts m h.1)
]

sweep-Lacks : (k : Str) (window now : ℕ) (m : Requests) → Lacks k m → Lacks k (sweep window now m)
unfolding sweep
sweep-Lacks k window now [] h = tt
sweep-Lacks k window now ((j, us) ∷ m) h = ground (arith, sweep-Lacks k window now m h.1)

pub sweep-Keyed : (window now : ℕ) (m : Requests) → Keyed m → Keyed (sweep window now m)
unfolding sweep
sweep-Keyed window now [] h = tt
sweep-Keyed window now ((j, us) ∷ m) h =
    ground (arith, sweep-Keyed window now m h.1, sweep-Lacks j window now m h.0)

get_of_Lacks : (k : Str) (m : Requests) → Lacks k m → get k m ≡ []
unfolding get
get_of_Lacks k [] h = refl
get_of_Lacks k ((j, us) ∷ m) h = ground (arith, get_of_Lacks k m h.1)

get_of_Lacks-eq : (j k : Str) (m : Requests) → j ≡ k → Lacks j m → get k m ≡ []
get_of_Lacks-eq j k m e h = rw (← e) (get_of_Lacks j m h)

-- A sweep keeps of each bucket what is fresh.
pub get-sweep :
    (k : Str) (window now : ℕ) (m : Requests)
    → Keyed m
    → get k (sweep window now m) ≡ fresh window now (get k m)
unfolding get sweep
get-sweep k window now [] h = refl
get-sweep k window now ((j, us) ∷ m) h = ground (
  arith,
  get-sweep k window now m h.1,
  str_eq_iff j k,
  get_of_Lacks-eq j k (sweep window now m),
  sweep-Lacks j window now m h.0,
)
