-- ===== src/Tests/Switches.antt =====
-- Impersonation on the sample accounts.
use goravel_authkit.Base.{◌≡◌, refl, Bool, true, false, [], ◌∷◌, none, some}
use goravel_authkit.Text.{lit, str_eq}
use goravel_authkit.Models.{User}
use goravel_authkit.Repositories.Users.{select_id}
use goravel_authkit.Errors.{ok}
use goravel_authkit.Http.{log_in_to, Context, ImpersonatorMarker, follow}
use goravel_authkit.Http.Rules.{Gives}
use goravel_authkit.Helpers.{impersonator, key, impersonator_of}
use goravel_authkit.Helpers.Marked.{marker_in}
use goravel_authkit.Responses.{Answer, ImpersonateRequest}
use goravel_authkit.Controllers.{complete_login}
use goravel_authkit.Controllers.Auth.{logout}
use goravel_authkit.Controllers.Impersonation.{ImpersonationController, start, stop}
use goravel_authkit.Controllers.Impersonation.Switch.{Switches, start-Switches}
use goravel_authkit.Controllers.Impersonation.Stop.{
  ended, Stopped, Beside, stop-Restored, stop-Beside,
}
use goravel_authkit.Controllers.Impersonation.Leftover.{logout-complete_login-marker}
use goravel_authkit.Tests.Sample.{sample, ann, account}
use goravel_authkit.Tests.Browser.{
  Jar, browser, browser-IsLawful, fresh_jar, visit, from_home, write_marker,
}
use goravel_authkit.Tests.Logins.{stamp, auth, draws, carl, accounts}
use goravel_authkit.Middleware.Sessions.SignedIn.{at_rest}

abbrev guest : User
guest = account 7 (lit "guest@x.org") (lit "user")

abbrev switcher : ImpersonationController
switcher = record {
  guard = lit "admin";
  guards = lit "admin" ∷ lit "client" ∷ [];
  others = λ guard. guest ∷ [];
  gate = record {
    roles = lit "admin" ∷ [];
    target_guards = lit "*" ∷ [];
    protected_roles = lit "admin" ∷ [];
    hook = some (λ actor guard target. ok true);
  };
  audit = true;
}

abbrev administrator : Context Jar
administrator = visit (browser.put (lit "x") (lit "y") fresh_jar) (at_rest accounts) 1

abbrev to_carl : ImpersonateRequest
to_carl = record { guard = lit "admin"; user_id = browser.uuid_string 4 }

start-Switches_example :
    Gives
      (Switches browser browser-IsLawful switcher administrator)
      (start browser switcher (some to_carl) (from_home (lit "")) stamp administrator)
start-Switches_example =
    start-Switches browser browser-IsLawful switcher (from_home (lit "")) stamp administrator
      (some to_carl)

-- Ann acts as Carl, or as the guest of the other guard.
abbrev marker : (same : Bool) → ImpersonatorMarker
marker same = record {
  guard = lit "admin";
  user_id = 1;
  email = lit "ann@x.org";
  same_guard = same;
}

abbrev switched : (same : Bool) → Context Jar
switched same =
    visit (browser.put (key impersonator (lit "admin")) (write_marker (marker same)) fresh_jar)
      (at_rest accounts) 4

stop-Restored_example :
    Gives
      (Stopped browser browser-IsLawful switcher
        (from_home (lit ""))
        stamp
        (marker true)
        4
        ann
        (switched true).session
        (log_in_to browser (lit "admin") (browser.uuid_string ann.id) (switched true).session))
      (stop browser switcher (from_home (lit "")) stamp (switched true))
unfolding impersonator_of str_eq key select_id
stop-Restored_example =
    stop-Restored browser browser-IsLawful switcher (from_home (lit "")) stamp (marker true) ann
      (switched true) refl refl refl refl

stop-Beside_example :
    Gives
      (λ (a : Answer) (c : Context Jar).
        (a ≡ ended browser browser-IsLawful switcher (from_home (lit "")) stamp)
        × Beside browser browser-IsLawful switcher
            (from_home (lit ""))
            stamp
            (lit "client")
            none
            none
            c.session
        × (marker_in browser (lit "admin") c.session ≡ none))
      (stop browser switcher (from_home (lit "")) stamp (switched false))
unfolding str_eq impersonator_of key
stop-Beside_example =
    stop-Beside browser browser-IsLawful switcher (from_home (lit "")) stamp (lit "client") refl
      (marker false) (switched false) refl refl

logout-complete_login-marker_example :
    Gives
      (λ (a : Answer) (c : Context Jar).
        impersonator_of browser (lit "admin") c
        ≡ impersonator_of browser (lit "admin") (switched true))
      (follow
        (logout sample browser auth (from_home (lit "")) stamp (switched true))
        (λ _. complete_login sample browser auth.sign_in (from_home (lit "")) draws false carl))
logout-complete_login-marker_example =
    logout-complete_login-marker sample browser browser-IsLawful auth (from_home (lit ""))
      (from_home (lit "")) stamp draws false carl (switched true)
