-- ===== src/Auth.antt =====
-- Sign-in below frontend/src/features/auth: the stored session token, and where a sign-in may lead.
pub mod Tokens
pub mod Markers
pub mod Memory
pub mod Cleaned
pub mod Navigation
pub mod Paths
pub mod Continuations
pub mod Destinations
mod Tests
