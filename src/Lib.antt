-- ===== src/Lib.antt =====
-- A model of goravel-authkit, an authentication kit for applications on the Goravel framework.
-- The kit is layered: middleware and controllers call services, services call repositories, and
-- repositories read and write the tables of one guard. All four layers are modelled, with the
-- table of the routes and the options that it is built from; the framework below them is a
-- parameter.
--
-- Files and their sources, with paths from the root of the repository:
--
--  Base, Base/Tests, Base/Lists, Base/Ints: shared helpers. Tables are lists of rows: first,
--    keep, count and rewrite_where are the shapes of the queries.
--  Text, Text/Laws, Text/Base64: the functions of the standard library on strings, and
--    base64.RawURLEncoding, as far as they are called.
--  Errors: services/errors.go. Models: models/, and recoveryCode of services/twofactor.go.
--  External: what the code calls and does not define, as a record of functions.
--  Store, Store/Laws, Store/Calls: the database of one guard, service methods as state
--    transformers, and the rules for what a method ensures however it ends.
--  Repositories/Users, Remember, Sessions, ApiTokens: the files of these names in repositories/.
--    Repositories/Users/Laws and Repositories/Remember/Laws have laws of their rows.
--  Services/Validation: services/validation.go, with normalizeEmail (auth.go) and
--    validatePassword (users.go).
--  Services/Users: services/users.go. Update is the composition of the lookup, guard_last_admin,
--    guard_email, changed, Save and revoke_if, in the order of the code. Child modules: Admins,
--    Emails, Uniqueness, Standing, Roles.
--  Services/Auth: services/auth.go; Passwords and Profile have proofs.
--  Services/TwoFactor: services/twofactor.go; Recovery has the recovery codes. Child modules with
--    proofs: Codes, CodeShape, Spending, Replay, Enrolment; Attempts has runs of attempts.
--  Services/Remember: services/remember.go; Tokens, Rotation, Theft and RoundTrip have proofs.
--  Services/Sessions, Sessions/Termination: services/sessions.go.
--  Services/ApiTokens: services/api_tokens.go; Scopes and Plaintext are parts of it. Child
--    modules with proofs: ScopeOrder, ScopeLaws, Limit, Revocation, RoundTrip.
--  Services/Impersonation, Impersonation/Policies: services/impersonation.go.
--  Middleware/Guards: http/middleware/authenticated.go and http/middleware/api_token.go, as
--    decisions on a request; Passing and Expiry have proofs.
--  Middleware/Csrf: http/middleware/csrf.go; Origins has proofs.
--  Repositories/LoginEvents: repositories/login_events.go, with the rules of LIKE; Like has
--    proofs.
--  Services/AdminLogins: services/admin_logins.go; Paging has proofs.
--  Repositories/Audit, Services/Audit: repositories/audit.go and services/audit.go; Audit/Recent
--    has proofs.
--  Middleware/RateLimit: http/middleware/rate_limit.go; Window, Refinement and Waiting have
--    proofs.
--  Http, Http/Laws, Http/Rules: what a handler works on; the laws of the framework's session that
--    the proofs use; rules for what a handler gives.
--  Helpers: helpers/. Keys, Signed and Marked have laws of the keys, of who is signed in, and of
--    the impersonator marker.
--  Responses: http/responses/responses.go.
--  Controllers: completeLogin (http/controllers/auth.go), enforceRateLimit and ParseUUIDParam;
--    Establish and Completed have proofs.
--  Controllers/Auth, TwoFactor, Impersonation, Users: the files of these names in
--    http/controllers/; ActiveSessions is sessions.go, PersonalTokens is api_tokens.go, Overview
--    is admin_logins.go and meta.go. Auth/Password is the change of password. Child modules with
--    proofs: Auth/Gate, TwoFactor/Challenge, Impersonation/Switch, Stop and Leftover, Users/Kept
--    and Reachable, Auth/Password/Shut.
--  Middleware/Sessions: Authenticated with its effect on the session,
--    http/middleware/track_session.go, impersonation.go and remember.go, UnlessBearer and
--    RateLimitByIP; SignedIn, Restored and Tracked have proofs.
--  Routes: Options, DefaultOptions and the defaults of register. Routes/Config reads the options
--    of the configuration, Routes/Table is the table that register mounts and the middleware of
--    Protect and its kin, Routes/Guards is the list of guards, and Routes/Wiring is what register
--    builds for the controllers. Closed and Guards/Apart have proofs.
--  Tests: concrete runs, with a session that is a pair of functions (Tests/Browser).
--
-- State. A Db is the five tables of a guard and a list of faults, which says for each database
-- call to come whether it fails and with what text. A call that fails changes nothing;
-- errors.Join with ErrInternal is the constructor internal, through which errors.Is looks. An
-- action is a function from a Db to an outcome, a value or an error, each with the Db that is
-- left. MutateLocked is one transaction: nothing is written unless its closure returns a row.
--
-- Values. Ids are numbers with 0 for uuid.Nil, instants and durations are numbers of nanoseconds,
-- and an instant minus a duration is compared by adding the duration on the other side. The
-- subtractions that are left are of a smaller number from a larger: matchTOTPStep goes back one
-- step from a clock that is past the first step of 1970, and the store of the rate limit waits
-- for a time that lies ahead. Strings are lists of code points of valid UTF-8. What the code
-- draws at random and the times at which it reads the clock are arguments, in the order of the
-- code. A slice of random bytes is an Option, none where rand.Read fails.
--
-- Loops are structural recursion over lists. The loop of randomRecoveryCode rejects bytes from
-- max_byte on; it recurs on the bytes that are drawn, and a theorem says how many are enough.
--
-- Requests. A handler is a function from a Context to an answer and a Context: the session of the
-- framework, the database, the id that Authenticated has set, and what the response has of
-- cookies and of Retry-After. The session, the guards of the framework, uuid and JSON are the
-- record Platform, and what the sources rely on of them is IsLawful: a session maps keys to
-- values and has a user for each guard, a login touches nothing but the user of its guard, and a
-- new id of the session keeps what is in it. A login and a new id may fail. A body that cannot be
-- bound is none, and the answer of the rate limit is an argument. Middleware/Guards has the
-- decisions of the middleware alone: the identity that goes on, or the status and code of the
-- answer and what happens to the session.
--
-- Routes. A route is its method, its path, the middleware before its handler in order, and the
-- name of the handler. Numbers of the configuration that are not positive read as 0, since the
-- code uses none of them; a configured duration wraps at 64 bits as in the code, and a negative
-- one reads as 0. The page and the size of the login history are integers, and its offset wraps
-- in the same way; a negative offset skips no rows.
--
-- Not modelled: logging, the attributes of the cookies, the choice of the store of the rate
-- limit, the service provider and the facade of the package, console commands, migrations, the
-- installer and the demo application. The dummy hash of Authenticate only spends time.
-- Concurrency appears where the code handles it: as the compare-and-set of a rotation and as the
-- single step of a locked row; a call of the rate limit's store is one step, since it holds the
-- mutex throughout. The session of a request is changed by that request alone.
pub mod Base
pub mod Text
pub mod Errors
pub mod Models
pub mod External
pub mod Store
pub mod Http
pub mod Repositories
pub mod Services
pub mod Middleware
pub mod Helpers
pub mod Responses
pub mod Controllers
pub mod Routes
pub mod Tests
