-- ===== src/Client.antt =====
-- crates/psst-client: the client of the relay.
pub mod Retry
