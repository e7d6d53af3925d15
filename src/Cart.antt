-- ===== src/Cart.antt =====
-- The cart: features/cart/cartReducer.ts, cartStorage.ts and CartContext.tsx below frontend/src.
pub mod Reducer
pub mod Items
pub mod Context
pub mod Storage
pub mod Invariant
pub mod Quantities
pub mod Totals
pub mod Persistence
pub mod RoundTrip
mod Tests
