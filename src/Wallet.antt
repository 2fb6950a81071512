-- ===== src/Wallet.antt =====
-- apps/web/lib/wallet: the wallet behind its port.
pub mod Adapter
