-- ===== src/Anchor/Sep6.antt =====
-- apps/web/lib/anchor/sep6.ts: deposits, their polled status, and the polling loop.
pub mod Codes
pub mod Parsing
pub mod Polling
pub mod Settling
mod Tests
