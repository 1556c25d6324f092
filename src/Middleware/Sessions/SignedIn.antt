-- ===== src/Middleware/Sessions/SignedIn.antt =====
-- http/controllers/auth.go with http/middleware/authenticated.go: from a login to the next request.
use goravel_authkit.Base.{
  ℕ, ◌≡◌, refl, ap, Bool, false, [], Option, none, some, ◌⊎◌, inl, inr, ◌==◌,
}
use goravel_authkit.Text.{Str}
use goravel_authkit.Text.Laws.{str_eq_refl}
use goravel_authkit.Models.{User, is_disabled}
use goravel_authkit.External.{External}
use goravel_authkit.Store.{Db, Tables, machine, recovered}
use goravel_authkit.Http.{Context, Platform, Request, ran, web, signed_in}
use goravel_authkit.Http.Laws.{IsLawful}
use goravel_authkit.Http.Rules.{Gives, Gives-imp}
use goravel_authkit.Helpers.{guard_user_id}
use goravel_authkit.Helpers.Signed.{Signed}
use goravel_authkit.Responses.{internal_error}
use goravel_authkit.Repositories.Users
use goravel_authkit.Repositories.Users.{select_id}
use goravel_authkit.Middleware.Guards.{authenticated, admit, stamp_valid}
use goravel_authkit.Middleware.Sessions.{passed, authenticate_session, stamp_in}
use goravel_authkit.Controllers.{SignIn, Draws, complete_login}
use goravel_authkit.Controllers.Completed.{SignedAs, complete_login-Signed}

abbrev pub at_rest : Tables → Db
at_rest tables = record { tables = tables; faults = [] }

module _ {S : Type 0} (p : Platform S) (laws : IsLawful p) (guard : Str) where
  guard_user_id_lem :
      (id : ℕ) (c : Context S)
      → signed_in p guard c.session ≡ some (p.uuid_string id)
      → guard_user_id p guard c ≡ id
  unfolding guard_user_id
  guard_user_id_lem id c h = rw (h, laws.string_set id, laws.parse-string id) refl

  stamp_lem :
      (id stamp : Str) (o : Option S)
      → Signed p guard id stamp o
      → stamp_in p guard o ≡ some (some stamp)
  stamp_lem id stamp none h = absurd (cc (h.0))
  stamp_lem id stamp (some s) h = ap some h.1

  -- A session that is signed in passes while the row of the account has the same stamp.
  pub authenticate_signed :
      (u v : User) (c : Context S) (tables : Tables)
      → SignedAs p laws guard u c
      → c.db ≡ at_rest tables
      → select_id u.id tables.users ≡ some v
      → (u.id == 0) ≡ false
      → v.password_changed_at ≡ u.password_changed_at
      → is_disabled v ≡ false
      → authenticate_session p guard c
        ≡ ran passed (record c { auth_user_id = v.id; db = at_rest tables })
  unfolding authenticate_session web machine authenticated admit stamp_valid recovered
      Users.find_by_id
  authenticate_signed u v c tables signed rest found real same live =
      rw
        (
          guard_user_id_lem u.id c signed.0,
          stamp_lem (p.uuid_string u.id) (p.format_stamp u.password_changed_at) c.session signed,
          rest,
          real,
          authenticated,
          found,
          live,
          same,
          laws.stamp_set u.password_changed_at,
          str_eq_refl (p.format_stamp u.password_changed_at),
        )
        refl

module _ {S : Type 0} (p : Platform S) (laws : IsLawful p) where
  -- A login that is completed is let through by Authenticated with the id of the account, as long
  -- as the row of the account has the same stamp and is not disabled and no call fails; a login
  -- that is not completed is an internal error and leaves the session as it was.
  pub complete_login-authenticate :
      (ext : External) (i : SignIn) (req : Request) (d : Draws) (wanted : Bool) (u v : User)
      (c : Context S) (tables : Tables)
      → select_id u.id tables.users ≡ some v
      → (u.id == 0) ≡ false
      → v.password_changed_at ≡ u.password_changed_at
      → is_disabled v ≡ false
      → Gives
          (λ a c'.
            (authenticate_session p i.guard (record c' { db = at_rest tables })
              ≡ ran passed (record c' { auth_user_id = v.id; db = at_rest tables }))
            ⊎ ((a ≡ internal_error) × (c'.session ≡ c.session)))
          (complete_login ext p i req d wanted u c)
  complete_login-authenticate ext i req d wanted u v c tables found real same live =
      Gives-imp _ (complete_login-Signed p laws ext i req d wanted u c) λ a c' h. elim h [
        | inl signed ↦ inl (
            authenticate_signed p laws i.guard u v (record c' { db = at_rest tables }) tables
              signed.1 refl found real same live)
        | inr refused ↦ inr refused
      ]
