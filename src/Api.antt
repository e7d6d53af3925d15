-- ===== src/Api.antt =====
-- The HTTP clients of frontend/src/api.
pub mod Errors
pub mod Config
pub mod Exchange
pub mod Origins
pub mod Configured
pub mod Authenticated
pub mod Allowed
mod Tests
