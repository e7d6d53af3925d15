-- ===== src/OrderStatus.antt =====
-- frontend/src/features/order-status: the polling of an order's status.
pub mod Errors
pub mod Polling
pub mod Schedule
pub mod Safety
pub mod Display
mod Tests
