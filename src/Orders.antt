-- ===== src/Orders.antt =====
-- The customer's API of frontend/src/api/customerApi.ts with the types of types.ts: what is sent, and
-- what is accepted as an answer.
pub mod Fields
pub mod Quote
pub mod Menu
pub mod Menus
pub mod Order
pub mod Checkout
pub mod Status
pub mod Lines
pub mod Quoted
pub mod Created
pub mod Paid
mod Tests
