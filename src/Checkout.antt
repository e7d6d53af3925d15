-- ===== src/Checkout.antt =====
-- The per-order records of the checkout below frontend/src/features/checkout: order access tokens and
-- checkout attempts in session storage.
pub mod OrderAccess
pub mod Attempt
pub mod Tokens
pub mod Attempts
mod Tests
