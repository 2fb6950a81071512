-- ===== src/Anchor.antt =====
-- apps/web/lib/anchor: the funding flow with the TR Mock Anchor.
pub mod Json
pub mod Types
pub mod Errors
pub mod Claim
pub mod Machine
pub mod Sep6
pub mod Session
pub mod Tokens
pub mod Request
pub mod Calls
pub mod Discovery
pub mod SignIn
