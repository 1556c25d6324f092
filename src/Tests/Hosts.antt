-- ===== src/Tests/Hosts.antt =====
-- Declared guards, the table of the routes, and a sequence of requests.
use goravel_authkit.Base.{refl, true, [], ◌∷◌, All, arith}
use goravel_authkit.Text.{lit, str_eq, mem_str}
use goravel_authkit.Store.{Db}
use goravel_authkit.Http.{Context}
use goravel_authkit.Routes.{Options, default_options, effective}
use goravel_authkit.Routes.Config.{Config, absent}
use goravel_authkit.Routes.Table.{register}
use goravel_authkit.Routes.Closed.{Closed}
use goravel_authkit.Routes.Closed.Groups.{register-Closed}
use goravel_authkit.Routes.Guards.{options_by_guard}
use goravel_authkit.Routes.Guards.Apart.{Apart, options_by_guard-Apart}
use goravel_authkit.Services.Users.Standing.{Standing}
use goravel_authkit.Controllers.Users.{UsersController, UserDraws}
use goravel_authkit.Controllers.Users.Reachable.{
  here, next, delete_user, served, serve, Reachable-Standing,
}
use goravel_authkit.Tests.Sample.{sample, settings}
use goravel_authkit.Tests.Browser.{Jar, browser, fresh_jar, visit, from_home}
use goravel_authkit.Tests.Logins.{stamp, accounts}
use goravel_authkit.Middleware.Sessions.SignedIn.{at_rest}

abbrev switching : Options
switching = record default_options { enable_impersonation = true; user_management_roles = [] }

register-Closed_example :
    All (λ r. Closed (effective switching) r.handler r.layers) (register switching)
register-Closed_example = register-Closed switching

-- Two guards with no keys of their own.
abbrev plain : Config
plain = record {
  get = λ path. absent;
  get_string = λ path default. default;
  get_int = λ path. 0;
  get_bool = λ path default. default;
  keys = λ path. lit "client" ∷ lit "admin" ∷ [];
}

options_by_guard-Apart_example :
    Apart (options_by_guard plain (lit "client")) (options_by_guard plain (lit "admin"))
unfolding str_eq
options_by_guard-Apart_example =
    options_by_guard-Apart plain (lit "client") (lit "admin") refl (λ key default k. refl)
      (λ key default k. refl) refl

abbrev administration : UsersController
administration = record { users = settings; audit = true }

abbrev user_draws : UserDraws
user_draws = record { id = 9; salt = 1; now = 20; revoked_at = 21; audit = stamp }

-- Ann deletes Bob.
abbrev by_ann : Context Jar
by_ann = visit fresh_jar (at_rest accounts) 1

abbrev after_deletion : Db
after_deletion =
    at_rest
      (served sample browser administration (
        serve sample browser administration (delete_user (browser.uuid_string 2))
          (from_home (lit "")) user_draws by_ann)).db.tables

Reachable-Standing_example : Standing settings after_deletion.tables
unfolding str_eq mem_str
Reachable-Standing_example =
    Reachable-Standing sample browser administration (at_rest accounts) after_deletion
      (
        (
          (λ e. omega (arith, e), (λ e. omega (arith, e), (λ e. omega (arith, e), tt))),
          (
            (λ e. omega (arith, e), (λ e. omega (arith, e), tt)),
            ((λ e. omega (arith, e), tt), (tt, tt)),
          ),
          ((refl, (refl, tt)), ((refl, tt), (tt, tt))),
        ),
        omega arith,
      )
      (next (delete_user (browser.uuid_string 2)) (from_home (lit "")) user_draws [] by_ann here (
        λ e. omega (arith, e),
        (λ e. omega (arith, e), (λ e. omega (arith, e), (λ e. omega (arith, e), tt))),
      ))
