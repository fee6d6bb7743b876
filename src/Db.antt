-- ===== src/Db.antt =====
-- crates/paur-db/src: the persistence layer. The tables of the migrations are lists of rows, and each
-- method of `Db` is its SQL statements as operations on them.
pub mod Models
pub mod Packages
pub mod Builds
pub mod Logs
pub mod Settings
pub mod Sessions
pub mod Invariant
pub mod Lifecycle
pub mod Statements
pub mod Progress
pub mod Essentials
