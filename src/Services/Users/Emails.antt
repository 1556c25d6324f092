-- ===== src/Services/Users/Emails.antt =====
-- services/users.go, services/auth.go: lemmas on the addresses of accounts.
use mathlib.Core.Path.{subst}
use goravel_authkit.Base.{
  ℕ, ◌≡◌, ◌≢◌, refl, ap, sym, ◌∙◌, Bool, true, false, List, [], ◌∷◌, ◌++◌, none, some, arith, ◌==◌,
  All, Bool-cases, inl, inr, first, first_of_All,
}
use goravel_authkit.Text.{Str, str_eq}
use goravel_authkit.Text.Laws.{str_eq-sym, str_eq_sound}
use goravel_authkit.Models.{User}
use goravel_authkit.Repositories.Users.{select_email, save_row, unless_nil}
use goravel_authkit.Repositories.Users.Laws.{UniqueIds}

-- No two rows have one address.
abbrev pub UniqueEmails : List User → Type 0
UniqueEmails [] = Unit
UniqueEmails (u ∷ us) = All (λ (v : User). str_eq v.email u.email ≡ false) us × UniqueEmails us

-- No row has the address.
abbrev pub Free : Str → List User → Type 0
Free email us = All (λ (v : User). str_eq v.email email ≡ false) us

-- No row is one of uuid.Nil.
abbrev pub ProperIds : List User → Type 0
ProperIds us = All (λ (v : User). v.id ≢ 0) us

pub select-Free :
    (email : Str) (us : List User) → ProperIds us → select_email email us ≡ none → Free email us
unfolding select_email unless_nil
select-Free email [] p e = tt
select-Free email (u ∷ us) p e = elim (Bool-cases (str_eq u.email email)) [
  | inl t ↦ absurd (p.0 (ground arith))
  | inr f ↦ (f, select-Free email us p.1 (ground arith))
]

append-Free :
    (email : Str) (us : List User) (v : User)
    → Free email us
    → str_eq v.email email ≡ false
    → Free email (us ++ v ∷ [])
append-Free email [] v h e = (e, tt)
append-Free email (u ∷ us) v h e = (h.0, append-Free email us v h.1 e)

pub append_unique :
    (us : List User) (v : User) → UniqueEmails us → Free v.email us → UniqueEmails (us ++ v ∷ [])
append_unique [] v h f = (tt, tt)
append_unique (u ∷ us) v h f = (
  append-Free u.email us v h.0 (ground (arith, str_eq-sym u.email v.email)),
  append_unique us v h.1 f.1,
)

-- Rows of another id do not have the address.
abbrev pub FreeBeside : Str → ℕ → List User → Type 0
FreeBeside email id us = All (λ (v : User). v.id ≢ id → str_eq v.email email ≡ false) us

pub Free-beside : (email : Str) (id : ℕ) (us : List User) → Free email us → FreeBeside email id us
Free-beside email id [] h = tt
Free-beside email id (u ∷ us) h = (λ _. h.0, Free-beside email id us h.1)

-- An address that one row has is free beside it.
pub owner-beside :
    (p : User → Bool) (us : List User) (v : User) (email : Str)
    → UniqueEmails us
    → first p us ≡ some v
    → str_eq v.email email ≡ true
    → FreeBeside email v.id us
owner-beside p [] v email h e same = tt
owner-beside p (u ∷ us) v email h e same = elim (Bool-cases (p u)) [
  | inl t ↦
      let here : u ≡ v = ground arith in
      let mine : u.email ≡ email =
        ap (λ (x : User). x.email) here ∙ str_eq_sound v.email email same in
      (
        λ ne. absurd (ne (ap (λ (x : User). x.id) here)),
        Free-beside email v.id us (subst (λ x. Free x us) mine h.0),
      )
  | inr f ↦
      let found : first p us ≡ some v = ground arith in
      let apart = (first_of_All _ p us h.0 found).0 in
      let mine = str_eq_sound v.email email same in
      (
        λ _. str_eq-sym u.email email ∙ subst (λ x. str_eq x u.email ≡ false) mine apart,
        owner-beside p us v email h.1 found same,
      )
]

save-absent : (u : User) (us : List User) → All (λ (v : User). v.id ≢ u.id) us → save_row u us ≡ us
unfolding save_row
save-absent u [] h = refl
save-absent u (v ∷ us) h = ground (arith, save-absent u us h.1)

save-Free :
    (email : Str) (u : User) (us : List User)
    → Free email us
    → str_eq u.email email ≡ false
    → Free email (save_row u us)
unfolding save_row
save-Free email u [] h e = tt
save-Free email u (v ∷ us) h e = (ground arith, save-Free email u us h.1 e)

beside-absent :
    (email : Str) (id k : ℕ) (us : List User)
    → k ≡ id
    → All (λ (v : User). v.id ≢ k) us
    → FreeBeside email id us
    → Free email us
beside-absent email id k [] e h f = tt
beside-absent email id k (v ∷ us) e h f =
    (f.0 (λ x. h.0 (x ∙ sym e)), beside-absent email id k us e h.1 f.1)

pub save_unique :
    (u : User) (us : List User)
    → UniqueIds us
    → UniqueEmails us
    → FreeBeside u.email u.id us
    → UniqueEmails (save_row u us)
unfolding save_row
save_unique u [] ids h f = tt
save_unique u (v ∷ us) ids h f = elim (Bool-cases (v.id == u.id)) [
  | inl t ↦
      let same : v.id ≡ u.id = ground arith in
      let absent = subst (λ x. All (λ (w : User). w.id ≢ x) us) same ids.0 in
      rw (t, save-absent u us absent) (beside-absent u.email u.id u.id us refl absent f.1, h.1)
  | inr ne ↦
      let apart = f.0 (ground arith) in
      rw ne (
        save-Free v.email u us h.0 (str_eq-sym u.email v.email ∙ apart),
        save_unique u us ids.1 h.1 f.1,
      )
]
