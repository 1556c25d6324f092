-- ===== src/Tests/Passwords.antt =====
-- A change of password on the sample accounts.
use goravel_authkit.Base.{◌≡◌, refl, true, [], ◌∷◌, some}
use goravel_authkit.Text.{lit, str_eq, trim_space, byte_len}
use goravel_authkit.Store.{Tables, machine}
use goravel_authkit.Repositories.Users as UserRows
use goravel_authkit.Services.Validation.{validate_password}
use goravel_authkit.Http.{Context, on_session}
use goravel_authkit.Http.Rules.{Gives}
use goravel_authkit.Helpers.{password_changed_at_key}
use goravel_authkit.Responses.{Answer, ChangePasswordRequest}
use goravel_authkit.Middleware.RateLimit.{RateLimitResult}
use goravel_authkit.Middleware.Sessions.SignedIn.{at_rest}
use goravel_authkit.Controllers.Auth.Password.{PasswordDraws, change_password}
use goravel_authkit.Controllers.Auth.Password.Shut.{Shut, changed, change_password-Shut}
use goravel_authkit.Services.Auth as Accounts
use goravel_authkit.Tests.Sample.{sample, ann, bob}
use goravel_authkit.Tests.Browser.{Jar, browser, fresh_jar, visit, from_home}
use goravel_authkit.Tests.Logins.{stamp, auth, carl, accounts}

abbrev form : ChangePasswordRequest
form = record { current_password = lit "old secret"; new_password = lit "new secret" }

abbrev allowed : RateLimitResult
allowed = record { allowed = true; retry_after = 0 }

abbrev drawn : PasswordDraws
drawn = record { salt = 7; now = 50; revoked_at = 51; audit = stamp }

abbrev renewed : Tables
renewed = record accounts {
  users =
      record ann { password_hash = some (lit "hnew secret"); password_changed_at = 50 }
      ∷ bob
      ∷ carl
      ∷ [];
}

abbrev by_ann : Context Jar
by_ann = visit fresh_jar (at_rest accounts) 1

change_password-Shut_example :
    Gives
      (λ (a : Answer) (c : Context Jar).
        (a ≡ changed sample browser auth)
        × Shut sample browser auth 1 c
        × (c.session
            ≡ on_session
                (browser.put (password_changed_at_key (lit "admin")) (browser.format_stamp 50))
                (some fresh_jar)))
      (change_password sample browser auth
        (λ t. t)
        (some form)
        (some allowed)
        (from_home (lit ""))
        drawn
        by_ann)
unfolding Accounts.change_password UserRows.find_by_id UserRows.select_id machine str_eq
    validate_password trim_space byte_len UserRows.update_password UserRows.set_password
change_password-Shut_example =
    change_password-Shut sample browser auth (λ t. t) form allowed (from_home (lit "")) drawn 100 50
      renewed by_ann refl refl refl refl refl refl
