-- ===== src/Lease.antt =====
-- The addresses that clients get (src/ip-lease.c, src/ip-lease.h).
pub mod Entry
pub mod Pick4
pub mod Pick6
pub mod Assign
pub mod Step
pub mod Owners
pub mod Fresh
pub mod Give
pub mod Unique
pub mod Network
pub mod Seeded
mod Tests
