-- ===== src/Tests/Logins.antt =====
-- Logins, challenges and the middleware of sessions on the sample accounts.
use goravel_authkit.Base.{◌≡◌, refl, true, [], ◌∷◌, Option, none, some, ◌⊎◌}
use goravel_authkit.Text.{lit}
use goravel_authkit.Models.{User, RememberToken, is_disabled}
use goravel_authkit.Repositories.Users.{select_id}
use goravel_authkit.Store.{Tables}
use goravel_authkit.Middleware.RateLimit.{RateLimitResult}
use goravel_authkit.Http.{Context, ran}
use goravel_authkit.Http.Rules.{Gives}
use goravel_authkit.Helpers.{session_token, two_factor_user_id, key}
use goravel_authkit.Responses.{Answer, internal_error, LoginRequest, TwoFactorChallengeRequest}
use goravel_authkit.Controllers.{Stamp, SignIn, Draws, complete_login}
use goravel_authkit.Controllers.Auth.{AuthController, login}
use goravel_authkit.Controllers.Auth.Gate
use goravel_authkit.Controllers.TwoFactor.{CodeDraws, challenge}
use goravel_authkit.Controllers.TwoFactor.Challenge
use goravel_authkit.Middleware.Sessions.{
  passed, authenticate_session, track_session, remember_login,
}
use goravel_authkit.Middleware.Sessions.SignedIn.{complete_login-authenticate, at_rest}
use goravel_authkit.Middleware.Sessions.Restored.{Remembers, remember_login-Restored}
use goravel_authkit.Middleware.Sessions.Tracked.{Enforces, is_terminated, track_session-Enforces}
use goravel_authkit.Tests.Sample.{sample, account, ann, bob, tables}
use goravel_authkit.Tests.Browser.{Jar, browser, browser-IsLawful, fresh_jar, visit, from_home}

abbrev pub stamp : Stamp
stamp = record { id = 50; now = 20 }

abbrev pub sign_in : SignIn
sign_in = record { guard = lit "admin"; audit = true; remember = some 100; sessions = true }

abbrev pub draws : Draws
draws = record {
  remember = stamp;
  selector_bytes = some (1 ∷ 2 ∷ 3 ∷ []);
  validator_bytes = some (4 ∷ 5 ∷ 6 ∷ []);
  token_bytes = some (7 ∷ 8 ∷ 9 ∷ []);
  track = stamp;
  audit = stamp;
}

abbrev pub auth : AuthController
auth = record {
  sign_in = sign_in;
  two_factor = true;
  api_tokens = true;
  revoke_api_tokens_on_password_change = true;
  min_pw_len = 8;
}

-- An account without a second factor.
abbrev pub carl : User
carl = record (account 4 (lit "carl@x.org") (lit "user")) { two_factor_confirmed_at = none }

abbrev remembered : RememberToken
remembered = record {
  id = 1;
  user_id = 4;
  selector = lit "sel";
  validator_hash = lit "val";
  previous_validator_hash = lit "";
  rotated_at = none;
  expires_at = 1000;
}

abbrev pub accounts : Tables
accounts = record tables { users = ann ∷ bob ∷ carl ∷ []; remember_tokens = remembered ∷ [] }

abbrev pub visitor : Context Jar
visitor = visit fresh_jar (at_rest accounts) 0

abbrev within : Option RateLimitResult
within = some (record { allowed = true; retry_after = 0 })

-- The first step of a login with two factors is done.
abbrev pending : Context Jar
pending =
    visit (browser.put (key two_factor_user_id (lit "admin")) (browser.uuid_string 1) fresh_jar)
      (at_rest accounts) 0

-- A session whose row is gone.
abbrev ended : Context Jar
ended =
    visit (browser.put (key session_token (lit "admin")) (lit "s9") fresh_jar) (at_rest accounts) 1

abbrev form : LoginRequest
form = record { email = lit "carl@x.org"; password = lit "old secret"; remember = true }

login-Proven_example :
    Gives
      (Gate.Settles sample browser browser-IsLawful auth form (at_rest accounts) none)
      (login sample browser auth (some form) within (from_home (lit "")) draws visitor)
login-Proven_example =
    Gate.login-Proven sample browser browser-IsLawful auth form within (from_home (lit "")) draws
      visitor

abbrev code_form : TwoFactorChallengeRequest
code_form = record { code = lit "123456"; recovery_code = lit "" }

abbrev code_draws : CodeDraws
code_draws = record { now = 60_000_000_000; nonce = 1 }

challenge-Challenged_example :
    Gives
      (Challenge.Settles sample browser browser-IsLawful sign_in
        (from_home (lit ""))
        draws
        code_draws
        code_form
        pending)
      (challenge sample browser sign_in
        (some code_form)
        within
        (from_home (lit ""))
        draws
        code_draws
        pending)
challenge-Challenged_example =
    Challenge.challenge-Challenged sample browser browser-IsLawful sign_in (from_home (lit ""))
      draws code_draws code_form within pending

complete_login-authenticate_example :
    Gives
      (λ (a : Answer) (c : Context Jar).
        (authenticate_session browser (lit "admin") (record c { db = at_rest accounts })
          ≡ ran passed (record c { auth_user_id = 4; db = at_rest accounts }))
        ⊎ ((a ≡ internal_error) × (c.session ≡ some fresh_jar)))
      (complete_login sample browser sign_in (from_home (lit "")) draws true carl visitor)
unfolding select_id is_disabled
complete_login-authenticate_example =
    complete_login-authenticate browser browser-IsLawful sample sign_in (from_home (lit "")) draws
      true carl carl visitor accounts refl refl refl refl

remember_login-Restored_example :
    Gives (Remembers browser browser-IsLawful sample sign_in 100 (lit "sel:val") 30 visitor) (
      remember_login browser sample sign_in 100
        (from_home (lit "sel:val"))
        draws
        30
        (some (9 ∷ 9 ∷ 9 ∷ []))
        visitor)
remember_login-Restored_example =
    remember_login-Restored browser browser-IsLawful sample sign_in 100 (from_home (lit "sel:val"))
      draws 30 visitor (some (9 ∷ 9 ∷ 9 ∷ []))

track_session-Enforces_example :
    Gives
      (Enforces browser browser-IsLawful
        (lit "admin")
        ended
        (is_terminated browser browser-IsLawful (lit "admin") ended))
      (track_session browser (lit "admin") 30 ended)
track_session-Enforces_example =
    track_session-Enforces browser browser-IsLawful (lit "admin") 30 ended
