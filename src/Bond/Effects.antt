-- ===== src/Bond/Effects.antt =====
-- What an entry point has found and done, when it has returned: a record for each.
pub mod Seats
pub mod Releases
pub mod Settlement
pub mod Events
