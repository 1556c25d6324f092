-- ===== src/Services.antt =====
-- services/: the use cases.
pub mod Validation
pub mod Users
pub mod Auth
pub mod Remember
pub mod Sessions
pub mod TwoFactor
pub mod Impersonation
pub mod ApiTokens
pub mod AdminLogins
pub mod Audit
