-- ===== src/Contract/EventLog.antt =====
-- apps/web/lib/contract/event-log.ts: one event's history out of the RPC server's pages, and the
-- reservations that it names.
pub mod Entries
pub mod Kept
pub mod Pages
pub mod Reservations
pub mod Listed
pub mod Tally
mod Tests
