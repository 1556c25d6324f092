-- ===== src/Store/Calls.antt =====
-- What the calls of the database ensure, where an error is not joined, and what dealing with an error
-- ensures.
use goravel_authkit.Base.{Bool, true, false}
use goravel_authkit.Errors.{Err, Result, ok, err}
use goravel_authkit.Store.{
  Tables, Db, Outcome, done, fail, M, exec, query, joined, check, lift, recovered,
}
use goravel_authkit.Store.Laws.{Ensures, exec_last}

module _ {τ} {A : Type 0} {Q : A → Tables → Type τ} {E : Tables → Type τ} where
  -- Joining an error changes nothing that is ensured.
  pub unjoined : (o : Outcome A) → Ensures Q E (joined o) → Ensures Q E o
  unfolding joined
  unjoined (done a d) h = record { holds = h.holds }
  unjoined (fail e d) h = record { holds = h.holds }

  pub exec-Ensures :
      (f : Tables → A × Tables) (db : Db)
      → E db.tables
      → Q (f db.tables).0 (f db.tables).1
      → Ensures Q E (exec f db)
  exec-Ensures f db e h = unjoined (exec f db) (exec_last f db e h)

  pub query-Ensures :
      (f : Tables → A) (db : Db)
      → E db.tables
      → Q (f db.tables) db.tables
      → Ensures Q E (query f db)
  unfolding query
  query-Ensures f db e h = exec-Ensures (λ t. (f t, t)) db e h

  pub lift-Ensures :
      (r : Result A) (db : Db) → E db.tables → ((a : A) → Q a db.tables) → Ensures Q E (lift r db)
  unfolding lift
  lift-Ensures (ok a) db e h = record { holds = h a }
  lift-Ensures (err x) db e h = record { holds = e }

module _ {τ} {Q : Unit {0} → Tables → Type τ} {E : Tables → Type τ} where
  pub check-Ensures :
      (b : Bool) (e : Err) (db : Db) → E db.tables → Q tt db.tables → Ensures Q E (check b e db)
  unfolding check
  check-Ensures true e db h q = record { holds = q }
  check-Ensures false e db h q = record { holds = h }

module _ {τ υ} {A B : Type 0} where
  -- What an action ensures when it returns, and when it fails, is what the two ways go on from.
  pub recovered-Ensures :
      {R : A → Tables → Type τ} {E : Tables → Type τ} {Q : B → Tables → Type υ}
      {F : Tables → Type υ} {o : Outcome A} (k : A → M B) (h : Err → M B)
      → Ensures R E o
      → ((a : A) (d : Db) → R a d.tables → Ensures Q F (k a d))
      → ((e : Err) (d : Db) → E d.tables → Ensures Q F (h e d))
      → Ensures Q F (recovered o k h)
  unfolding recovered
  recovered-Ensures {o = done a d} k h r good bad = good a d r.holds
  recovered-Ensures {o = fail e d} k h r good bad = bad e d r.holds
