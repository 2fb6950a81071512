-- ===== src/Qr.antt =====
-- apps/web/lib/qr: the reservation pass, and the camera that reads it.
pub mod Pass
pub mod Scanner
