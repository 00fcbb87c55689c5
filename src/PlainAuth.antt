-- ===== src/PlainAuth.antt =====
-- Authentication by a password file (src/auth/plain.c).
pub mod Groups
pub mod File
pub mod Pass
pub mod Login
pub mod Accepted
pub mod Refused
pub mod Entry
pub mod Secure
mod Tests
