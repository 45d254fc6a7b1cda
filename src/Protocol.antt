-- ===== src/Protocol.antt =====
-- crates/psst-protocol: what client and relay exchange.
pub mod Dto
pub mod Auth
pub mod Error
