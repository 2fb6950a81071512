-- ===== src/Domain/Amounts.antt =====
-- apps/web/lib/domain/amounts.ts: seven-decimal amounts as integer stroops.
mod Defs
mod Reading
pub mod RoundTrip
pub mod Exact
pub mod Split
mod Tests
unfoldable pub use Defs.*
