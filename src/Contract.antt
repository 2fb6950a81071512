-- ===== src/Contract.antt =====
-- apps/web/lib/contract and apps/web/lib/stellar/contract-error-code.ts: the typed facade over the
-- contract's bindings.
pub mod ErrorCode
pub mod Mappers
pub mod Calls
pub mod Writes
pub mod EventList
pub mod EventLog
mod Tests
