-- ===== src/Services/TwoFactor/Replay.antt =====
-- services/twofactor.go: proofs about a TOTP code that is presented again.
use goravel_authkit.Base.{
  ℕ, ◌≡◌, ◌≤◌, refl, ap, ◌∙◌, true, false, List, [], Option, none, some, arith, Bool-cases, inl,
  inr,
}
use goravel_authkit.Text.{Str}
use goravel_authkit.Errors.{ok}
use goravel_authkit.Models.{User, two_factor_enabled}
use goravel_authkit.External.{External}
use goravel_authkit.Store.{Db, Tables, done, machine}
use goravel_authkit.Repositories.Users
use goravel_authkit.Repositories.Users.{select_id, save_row, unless_nil, with_id}
use goravel_authkit.Services.TwoFactor.Attempts.{Attempt, run, Row, run-Row, select_id-save_row}
use goravel_authkit.Services.TwoFactor.{
  match_totp_step, accept_step, is_fresh, verify_login_code, enrolled_or_internal, text_of,
}

-- A step that was tried leaves the account enrolled, and refuses all steps up to it.
accept_step-keeps :
    (u : User) (s : ℕ)
    → ((accept_step u (some s)).1.id ≡ u.id)
      × (two_factor_enabled (accept_step u (some s)).1 ≡ two_factor_enabled u)
      × ((accept_step u (some s)).1.two_factor_secret ≡ u.two_factor_secret)
unfolding accept_step two_factor_enabled
accept_step-keeps u s = elim (Bool-cases (is_fresh u.two_factor_last_used_at s)) [
  | inl e ↦ rw e (refl, refl, refl)
  | inr e ↦ rw e (refl, refl, refl)
]

accept_step_lem :
    (u : User) (s : ℕ) → (accept_step u (some s)).0 ≡ is_fresh u.two_factor_last_used_at s
unfolding accept_step
accept_step_lem u s = elim (Bool-cases (is_fresh u.two_factor_last_used_at s)) [
  | inl e ↦ rw e refl
  | inr e ↦ rw e refl
]

is_fresh-earlier :
    (last : Option ℕ) (s s' : ℕ) → s' ≤ s → is_fresh last s ≡ false → is_fresh last s' ≡ false
is_fresh-earlier none s s' le e = cc
is_fresh-earlier (some t) s s' le e = ground arith

is_fresh-later :
    (last : Option ℕ) (s step : ℕ)
    → is_fresh last s ≡ false
    → is_fresh last step ≡ true
    → is_fresh (some step) s ≡ false
is_fresh-later none s step e f = cc
is_fresh-later (some t) s step e f = ground arith

accept_step-refuses :
    (u : User) (s s' : ℕ)
    → s' ≤ s
    → is_fresh (accept_step u (some s)).1.two_factor_last_used_at s' ≡ false
unfolding accept_step
accept_step-refuses u s s' le = elim (Bool-cases (is_fresh u.two_factor_last_used_at s)) [
  | inl e ↦ rw e (ground arith)
  | inr e ↦ rw e (is_fresh-earlier u.two_factor_last_used_at s s' le e)
]

abbrev pub at_rest : Tables → Db
at_rest tables = record { tables = tables; faults = [] }

module _ (ext : External) where
  -- One call for an enrolled account whose secret can be decrypted, no call failing.
  verify_lem :
      (now id : ℕ) (code secret : Str) (u : User) (tables : Tables)
      → select_id id tables.users ≡ some u
      → two_factor_enabled u ≡ true
      → ext.decrypt (text_of u.two_factor_secret) ≡ ok secret
      → verify_login_code ext now id code (record { tables = tables; faults = [] })
        ≡ done (accept_step u (match_totp_step ext secret code now)).0 (record {
          tables = record tables {
            users = save_row (accept_step u (match_totp_step ext secret code now)).1 tables.users;
          };
          faults = [];
        })
  unfolding verify_login_code machine Users.mutate_locked enrolled_or_internal Users.find_by_id
      Users.save
  verify_lem now id code secret u tables found enabled plain = rw (found, enabled, plain) refl

  abbrev after_step : User → ℕ → Tables → Tables
  after_step u s tables = record tables { users = save_row (accept_step u (some s)).1 tables.users }

  verify_matched :
      (now id : ℕ) (code secret : Str) (u : User) (tables : Tables) (s : ℕ)
      → select_id id tables.users ≡ some u
      → two_factor_enabled u ≡ true
      → ext.decrypt (text_of u.two_factor_secret) ≡ ok secret
      → match_totp_step ext secret code now ≡ some s
      → verify_login_code ext now id code (at_rest tables)
        ≡ done (is_fresh u.two_factor_last_used_at s) (at_rest (after_step u s tables))
  verify_matched now id code secret u tables s found enabled plain m =
      rw (← accept_step_lem u s, ← m) (verify_lem now id code secret u tables found enabled plain)

  -- The account is enrolled with this secret, and its last step is `s` or a later one.
  abbrev Used : (secret : Str) → (s : ℕ) → User → Type 0
  Used secret s u =
      (two_factor_enabled u ≡ true)
      × (ext.decrypt (text_of u.two_factor_secret) ≡ ok secret)
      × (is_fresh u.two_factor_last_used_at s ≡ false)

  -- A code that is refused, accepted or wrong takes no step back.
  accept_step-Used :
      (secret : Str) (s : ℕ) (u : User) (step : Option ℕ)
      → Used secret s u
      → Used secret s (accept_step u step).1
  unfolding accept_step two_factor_enabled
  accept_step-Used secret s u none h = h
  accept_step-Used secret s u (some step) h =
      elim (Bool-cases (is_fresh u.two_factor_last_used_at step)) [
        | inl e ↦ rw e (h.0, h.1, is_fresh-later u.two_factor_last_used_at s step h.2 e)
        | inr e ↦ rw e h
      ]

  refused_after :
      (now id : ℕ) (code secret : Str) (tables : Tables) (s s' : ℕ)
      → match_totp_step ext secret code now ≡ some s'
      → s' ≤ s
      → Row (Used secret s) id tables
      → (last : Tables) × (verify_login_code ext now id code (at_rest tables)
          ≡ done false (at_rest last))
  refused_after now id code secret tables s s' m le (u, found, used) = (
    after_step u s' tables,
    verify_matched now id code secret u tables s' found used.0 used.1 m
        ∙ ap (λ b. done b (at_rest (after_step u s' tables)))
            (is_fresh-earlier u.two_factor_last_used_at s s' le used.2),
  )

  -- For an enrolled account whose secret can be decrypted, no call failing: a code that matches a
  -- time step is accepted exactly if the step is later than the last one accepted. After it, and
  -- after any further attempts with login or recovery codes of any account, whose calls may fail,
  -- every code of that step or an earlier one is refused.
  pub verify_login_code-replay :
      (now now' id : ℕ) (code code' secret : Str) (u : User) (tables : Tables) (s s' : ℕ)
      (attempts : List Attempt) (faults : List (Option Str))
      → select_id id tables.users ≡ some u
      → two_factor_enabled u ≡ true
      → ext.decrypt (text_of u.two_factor_secret) ≡ ok secret
      → match_totp_step ext secret code now ≡ some s
      → match_totp_step ext secret code' now' ≡ some s'
      → s' ≤ s
      → (after : Tables) × (last : Tables) × (verify_login_code ext now id code (at_rest tables)
          ≡ done (is_fresh u.two_factor_last_used_at s) (at_rest after))
        × (verify_login_code ext now' id code'
              (at_rest (run ext attempts (record { tables = after; faults = faults })).tables)
            ≡ done false (at_rest last))
  unfolding two_factor_enabled
  verify_login_code-replay now now' id code code' secret u tables s s' attempts faults found enabled
        plain m m' le =
      let u' = (accept_step u (some s)).1 in
      let after = after_step u s tables in
      let (same, enrolled, kept) = accept_step-keeps u s in
      let used : Used secret s u' = (
        enrolled ∙ enabled,
        ap (λ x. ext.decrypt (text_of x)) kept ∙ plain,
        accept_step-refuses u s s (omega arith),
      ) in
      let row =
        run-Row ext (Used secret s) id (accept_step-Used secret s) (λ _ _ _ _ _ _ _ _ _ _ h. h)
          attempts (record { tables = after; faults = faults })
          (u', select_id-save_row id tables.users u u' found same, used) in
      let (last, refused) = refused_after now' id code' secret _ s s' m' le row in
      (after, last, verify_matched now id code secret u tables s found enabled plain m, refused)
