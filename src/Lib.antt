-- ===== src/Lib.antt =====
-- The front end of the restaurant ordering application (frontend/src): the cart, the checkout, the
-- session, the HTTP clients, the polling of an order's status, and parts of the administration.
--
-- A customer fills a cart (features/cart), has it quoted and turned into an order by the API
-- (api/customerApi.ts over api/client.ts), receives a token for the order (features/checkout), opens a
-- checkout session under a stored idempotency key, and watches the order's status
-- (features/order-status). A signed-in user's token lives in the tab's storage (features/auth) and is
-- sent to a short list of paths (api/authenticatedApi.ts). The authentication provider
-- (features/auth/AuthContext.tsx) restores that token, has its user named by the API (authApi.ts), and
-- signs in and out; the route guards show pages by what it shows.
--
-- The files:
--   Base: lists, texts and the two error monads. A text is the list of its UTF-16 code units.
--   Js: JavaScript numbers and values, `hasExactKeys` (repeated word for word in the source files that
--     parse; the administration has one of its own, in Admin/Users), the regular expressions of fixed shape, session storage.
--   Cart/Reducer, Cart/Context, Cart/Storage: cartReducer.ts, CartContext.tsx and cartStorage.ts of
--     frontend/src/features/cart, function by function (`cartReducer` is `cart_reducer`, and so on).
--   Checkout/OrderAccess, Checkout/Attempt: orderAccessStorage.ts and checkoutAttemptStorage.ts of
--     frontend/src/features/checkout.
--   Auth/Tokens, Auth/Markers, Auth/Navigation: authStorage.ts (tokens, then the demo marker) and
--     authNavigation.ts of frontend/src/features/auth. The three module variables and the tab's
--     storage are the state `AuthState`.
--   Api/Errors, Api/Config, Api/Exchange: frontend/src/api/client.ts. Api/Authenticated:
--     frontend/src/api/authenticatedApi.ts.
--   Orders/Fields, Orders/Menu, Orders/Quote, Orders/Order, Orders/Checkout, Orders/Status: the menu, the
--     quote, the order, the checkout session and the status of frontend/src/api/customerApi.ts, with api/types.ts.
--   OrderStatus/Errors, OrderStatus/Polling: useOrderStatusPolling.ts of
--     frontend/src/features/order-status. The variables of the effect are the state `Polling`, each
--     callback is a function on it, and `run` is a sequence of callbacks in any order.
--   Session/Users: frontend/src/features/auth/authApi.ts. Session/State, Session/Outcomes,
--     Session/Provider, Session/Steps: AuthContext.tsx of the same folder. The refs, what is shown, the module variables of
--     authStorage.ts and the calls that have not settled are the state `Provider`; each callback is a
--     function on it up to its next `await`, and `step` takes the events (calls of the context's
--     functions, the timer, answers of the network) in any order, so that an old answer may come after a
--     newer request. A controller is named by the generation that made it. Session/Guards:
--     RouteGuards.tsx, and `AccountRouteGuard` of frontend/src/routes/router.tsx.
--     Session/Views is what of the state is seen; Session/Spec describes the session without controllers,
--     request generations, abort signals and storage, and Session/Refined compares the two.
--   Account/Pages: frontend/src/features/account/accountApi.ts.
--   Admin/Client: frontend/src/api/adminApi.ts. Admin/Users: adminUsersApi.ts of
--     frontend/src/features/admin-users. Admin/Downloads: csvDownload.ts of
--     frontend/src/features/admin-exports. Admin/Categories: the categories of adminMenuApi.ts of
--     frontend/src/features/admin-menu.
--   The other files prove theorems on these; Fixtures and the Tests files run them on examples.
--
-- Parameters: the JSON codec (`Json`, which reads back what it wrote for the values that JSON holds),
-- which storage calls the browser grants, `new URL`, whether `Date.parse` gives a number,
-- `crypto.randomUUID`, `toLowerCase`, and what the network and the timer do with a request (`World`, `Exchange`).
-- `Headers` throws a `TypeError` for a value with a code unit above 255, NUL, LF or CR (`is_header_value`),
-- and leaves out the white space at the ends of a value; that is modelled for the credentials.
--
-- Bounds: an integral number is exact at any size, where the source's doubles round from 2^53 on; what
-- the code accepts lies below. All loops are structural, so that no fuel is needed, but for the
-- digits of a numeral: a number is at least as large as its number of digits less one, so that its
-- successor is fuel enough. The loop over pages of categories counts down the 100 pages of the source. The
-- delays and limits are those of the source.
--
-- Not modelled: messages and causes of errors; the percent-encoded login target; React's rendering,
-- contexts and effects other than the polling and the provider's; the route table; abort listeners,
-- which appear as whether the signal is aborted; binary answers, the dishes, and the order, analytics
-- and export requests of the administration; the backend.
pub mod Base
pub mod Js
pub mod Cart
pub mod Checkout
pub mod Auth
pub mod Api
pub mod Orders
pub mod OrderStatus
pub mod Session
pub mod Account
pub mod Admin
pub mod Fixtures
