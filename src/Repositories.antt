-- ===== src/Repositories.antt =====
-- repositories/: the queries of the ORM-backed repositories, as operations on the tables. A
-- `Where` is a test on rows, `First` takes the first row that passes, an `Update` and a `Delete`
-- act on all rows that pass, and `RowsAffected` is their number.
pub mod Users
pub mod Remember
pub mod Sessions
pub mod ApiTokens
pub mod LoginEvents
pub mod Audit
