-- ===== src/Domain.antt =====
-- apps/web/lib/domain.
pub mod Types
pub mod Amounts
pub mod Eligibility
pub mod EventId
pub mod ContractErrors
pub mod ReservationResults
pub mod Schemas
pub mod Schedule
mod Tests
