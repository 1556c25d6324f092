-- ===== src/Tests.antt =====
-- Concrete runs: a small database, stand-ins for the parameters of the model, and each theorem at
-- an input where its hypotheses hold.
pub mod Sample
pub mod Browser
pub mod Accounts
pub mod TwoFactor
pub mod Cookies
pub mod Tokens
pub mod Limits
pub mod Requests
pub mod Logins
pub mod Switches
pub mod Hosts
pub mod Passwords
