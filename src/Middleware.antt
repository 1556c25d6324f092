-- ===== src/Middleware.antt =====
-- http/middleware/: what stands before the handlers.
pub mod RateLimit
pub mod Guards
pub mod Csrf
pub mod Sessions
