-- ===== src/Admin.antt =====
-- The administration: frontend/src/api/adminApi.ts, and features/admin-users and features/admin-exports
-- of frontend/src.
pub mod Client
pub mod Users
pub mod Downloads
pub mod Filenames
pub mod Sent
pub mod Categories
pub mod Complete
pub mod Managed
mod Tests
