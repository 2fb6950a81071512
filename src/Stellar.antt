-- ===== src/Stellar.antt =====
-- apps/web/lib/stellar: what an account may spend.
pub mod Assets
pub mod Reserve
mod Tests
