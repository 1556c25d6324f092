-- ===== src/Http/Rules.antt =====
-- Rules for what a handler gives, and for what it keeps of the session.
use goravel_authkit.Base.{ℕ, ◌≡◌, refl, Bool, true, false, Option, none, some}
use goravel_authkit.Text.{Str}
use goravel_authkit.Errors.{Result, ok, err}
use goravel_authkit.Store.{Tables, Db, Outcome, done, fail, M}
use goravel_authkit.Store.Laws.{Ensures}
use goravel_authkit.Http.{
  Context, Platform, Ran, ran, W, follow, choose, attempt, with_session, clear_remember_cookie,
  set_remember_cookie, regenerate_and_persist_session, on_session, regenerated, regenerate_in,
}

abbrev pub GivesPost {ℓ τ} : {S : Type 0} {A : Type ℓ} → (A → Context S → Type τ) → Ran S A → Type τ
GivesPost Q (ran a c) = Q a c

-- `Q` holds of the value and of the context that is left.
pub record Gives {ℓ τ} {S : Type 0} {A : Type ℓ} (Q : A → Context S → Type τ) (r : Ran S A)
    : Type τ where
  pub gives : GivesPost Q r

-- What a service's error or value is known by.
abbrev pub Answered {τ} :
    {A : Type 0} → (A → Tables → Type τ) → (Tables → Type τ) → Result A → Tables → Type τ
Answered Q E (ok a) t = Q a t
Answered Q E (err e) t = E t

module _ {τ} {S : Type 0} {A B : Type 0} where
  pub follow-Gives :
      {R : A → Context S → Type τ} {Q : B → Context S → Type τ} {r : Ran S A} (k : A → W S B)
      → Gives R r
      → ((a : A) (c : Context S) → R a c → Gives Q (k a c))
      → Gives Q (follow r k)
  unfolding follow
  follow-Gives {r = ran a c} k h go = go a c h.gives

module _ {τ} {S : Type 0} {A : Type 0} where
  pub gives_now : {Q : A → Context S → Type τ} {a : A} {c : Context S} → Q a c → Gives Q (ran a c)
  gives_now h = record { gives = h }

  pub choose-Gives :
      {Q : A → Context S → Type τ} (b : Bool) (x y : W S A) (c : Context S)
      → (b ≡ true → Gives Q (x c))
      → (b ≡ false → Gives Q (y c))
      → Gives Q (choose b x y c)
  unfolding choose
  choose-Gives true x y c h k = h refl
  choose-Gives false x y c h k = k refl

  pub Gives-imp :
      {Q R : A → Context S → Type τ} (r : Ran S A)
      → Gives Q r
      → ((a : A) (c : Context S) → Q a c → R a c)
      → Gives R r
  Gives-imp (ran a c) h f = record { gives = f a c h.gives }

  settled-Gives :
      {Q : A → Tables → Type τ} {E : Tables → Type τ} (c : Context S) (o : Outcome A)
      → Ensures Q E o
      → Gives (λ r c'. (c'.session ≡ c.session) × Answered Q E r c'.db.tables) (attempt (λ _. o) c)
  unfolding attempt
  settled-Gives c (done a db) h = record { gives = (refl, h.holds) }
  settled-Gives c (fail e db) h = record { gives = (refl, h.holds) }

  -- The call of a service leaves the session as it is.
  pub attempt-Gives :
      {Q : A → Tables → Type τ} {E : Tables → Type τ} (m : M A) (c : Context S)
      → Ensures Q E (m c.db)
      → Gives (λ r c'. (c'.session ≡ c.session) × Answered Q E r c'.db.tables) (attempt m c)
  unfolding attempt
  attempt-Gives m c h = settled-Gives c (m c.db) h

-- The run of a service that a value came from.
abbrev pub Returned : {A : Type 0} → Outcome A → Result A → Db → Type 0
Returned o (ok a) db = o ≡ done a db
Returned o (err e) db = Unit

module _ {S : Type 0} {A : Type 0} where
  settled-Returned :
      (c : Context S) (o : Outcome A)
      → Gives (λ r c'. (c'.session ≡ c.session) × Returned o r c'.db) (attempt (λ _. o) c)
  unfolding attempt
  settled-Returned c (done a db) = record { gives = (refl, refl) }
  settled-Returned c (fail e db) = record { gives = (refl, tt) }

  pub attempt-Returned :
      (m : M A) (c : Context S)
      → Gives (λ r c'. (c'.session ≡ c.session) × Returned (m c.db) r c'.db) (attempt m c)
  unfolding attempt
  attempt-Returned m c = settled-Returned c (m c.db)

-- A part of a handler after which `R` holds of the session if it did before.
abbrev pub Keeps {τ} : {S : Type 0} {A : Type 0} → (Option S → Type τ) → W S A → Type τ
Keeps {S} R m = (c : Context S) → R c.session → Gives (λ _ c'. R c'.session) (m c)

module _ {τ} {S : Type 0} (R : Option S → Type τ) where
  pub follow-Keeps :
      {A B : Type 0} (m : W S A) (k : A → W S B)
      → Keeps R m
      → ((a : A) → Keeps R (k a))
      → Keeps R (λ c. follow (m c) k)
  follow-Keeps m k h go c r = follow-Gives k (h c r) (λ a c' r'. go a c' r')

  pub choose-Keeps :
      {A : Type 0} (b : Bool) (x y : W S A) → Keeps R x → Keeps R y → Keeps R (choose b x y)
  choose-Keeps b x y h k c r = choose-Gives b x y c (λ _. h c r) (λ _. k c r)

  pub give-Keeps : {A : Type 0} (a : A) → Keeps R (λ c. ran a c)
  give-Keeps a c r = gives_now r

  settled-Keeps :
      {A : Type 0} (o : Outcome A) (c : Context S)
      → R c.session
      → Gives (λ _ c'. R c'.session) (attempt (λ _. o) c)
  unfolding attempt
  settled-Keeps (done a db) c r = gives_now r
  settled-Keeps (fail e db) c r = gives_now r

  pub attempt-Keeps : {A : Type 0} (m : M A) → Keeps R (attempt m)
  unfolding attempt
  attempt-Keeps m c r = settled-Keeps (m c.db) c r

  pub set_remember_cookie-Keeps : (v : Str) (ttl : ℕ) → Keeps R (set_remember_cookie v ttl)
  unfolding set_remember_cookie
  set_remember_cookie-Keeps v ttl c r = gives_now r

  pub clear_remember_cookie-Keeps : Keeps R clear_remember_cookie
  unfolding clear_remember_cookie
  clear_remember_cookie-Keeps c r = gives_now r

  on_session-Keeps :
      (f : S → S) (o : Option S)
      → ((s : S) → R (some s) → R (some (f s)))
      → R o
      → R (on_session f o)
  on_session-Keeps f none h r = r
  on_session-Keeps f (some s) h r = h s r

  pub with_session-Keeps :
      (f : S → S) → ((s : S) → R (some s) → R (some (f s))) → Keeps R (with_session f)
  unfolding with_session
  with_session-Keeps f h c r = gives_now (on_session-Keeps f c.session h r)

  pub with_session-Gives :
      (Before : Option S → Type τ) (f : S → S) (c : Context S)
      → ((s : S) → Before (some s) → R (some (f s)))
      → (Before none → R none)
      → Before c.session
      → Gives (λ _ c'. R c'.session) (with_session f c)
  unfolding with_session
  with_session-Gives Before f c h none_kept r = gives_now (changed c.session r)
    where
      changed : (o : Option S) → Before o → R (on_session f o)
      changed none r = none_kept r
      changed (some s) r = h s r

  module _ (p : Platform S) where
    -- Any session that `Regenerate` may leave is kept by `R`.
    abbrev pub Regenerates : Type τ
    Regenerates = (s t : S) → p.regenerate s ≡ some t → R (some s) → R (some t)

    regenerated-Keeps :
        (c : Context S) (o : Option S)
        → R c.session
        → ((t : S) → o ≡ some t → R (some t))
        → Gives (λ _ c'. R c'.session) (regenerated p c o)
    regenerated-Keeps c none r h = gives_now r
    regenerated-Keeps c (some t) r h = gives_now (h t refl)

    regenerate_in-Keeps :
        (o : Option S) → Regenerates → R o → (t : S) → regenerate_in p o ≡ some t → R (some t)
    regenerate_in-Keeps none h r t e = absurd (cc)
    regenerate_in-Keeps (some s) h r t e = h s t e r

    pub regenerate-Keeps : Regenerates → Keeps R (regenerate_and_persist_session p)
    unfolding regenerate_and_persist_session
    regenerate-Keeps h c r =
        regenerated-Keeps c (regenerate_in p c.session) r (regenerate_in-Keeps c.session h r)
