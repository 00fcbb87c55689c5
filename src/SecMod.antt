-- ===== src/SecMod.antt =====
-- The security module (src/sec-mod-db.c, src/sec-mod-auth.c, src/sec-mod.h).
pub mod Entry
pub mod Db
pub mod Checks
pub mod Auth
pub mod Session
pub mod Init
pub mod Step
pub mod Accounting
pub mod Kept
pub mod Handlers
pub mod Created
pub mod Preserve
pub mod History
pub mod Grant
pub mod Gone
pub mod Reuse
pub mod Isolation
pub mod Banned
pub mod Complete
pub mod Fresh
pub mod Fixtures
pub mod Tests
