-- ===== src/Account.antt =====
-- The orders of a signed-in customer, frontend/src/features/account/accountApi.ts.
pub mod Pages
pub mod Numerals
pub mod Listed
pub mod Asked
mod Tests
