-- ===== src/Relay.antt =====
-- crates/psst-relay: the notifications that wake long polls, and the worker that owns the store.
pub mod Registry
pub mod Command
pub mod Worker
pub mod World
pub mod Inbox
