-- ===== src/Session.antt =====
-- The session of frontend/src/features/auth: authApi.ts, AuthContext.tsx and RouteGuards.tsx.
pub mod Users
pub mod State
pub mod Outcomes
pub mod Provider
pub mod Steps
pub mod Flight
pub mod Sound
pub mod Replies
pub mod Reached
pub mod Spec
pub mod Views
pub mod Signed
pub mod Logout
pub mod Confirmed
pub mod Progress
pub mod Checked
pub mod Ends
pub mod SpecCalls
pub mod SpecOperations
pub mod Refined
pub mod Guards
pub mod Guarded
mod Tests
