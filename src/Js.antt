-- ===== src/Js.antt =====
-- The part of JavaScript that the storefront's code stands on: numbers and values as the code tests
-- them, object keys, the fixed-shape regular expressions, session storage and JSON texts.
mod Numbers
mod Values
pub mod Keys
pub mod Pattern
mod Browser
unfoldable pub use Numbers.*
unfoldable pub use Values.*
unfoldable pub use Browser.*
mod Tests
