-- ===== src/Bond.antt =====
-- contracts/showup-bond/src: the contract that holds the bonds.
pub mod Types
pub mod Host
pub mod Storage
pub mod Entry
pub mod Effects
pub mod Runs
pub mod Sums
pub mod Shares
pub mod Invariant
pub mod Lifecycle
pub mod Returns
pub mod Agreement
pub mod Payments
mod Sample
mod Tests
