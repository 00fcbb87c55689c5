-- ===== src/Main.antt =====
-- The clients of the main process (src/main-proc.c, src/main-auth.c, src/proc-search.c).
pub mod Index
pub mod Proc
pub mod Search
pub mod Auth
pub mod Clients
pub mod Sound
pub mod Step
pub mod Valid
pub mod Kept
pub mod Moved
pub mod Cookie
pub mod Request
pub mod Run
pub mod Safe
pub mod Limit
pub mod Reuse
mod Fixtures
mod Tests
