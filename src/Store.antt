-- ===== src/Store.antt =====
-- crates/psst-store/src: the durable store, as functions on the tables of its database.
pub mod Error
pub mod Schema
pub mod Clash
pub mod Invariant
pub mod Exec
pub mod Insert
pub mod Repository
pub mod Roster
pub mod Message
pub mod Inbox
pub mod Instance
pub mod Session
pub mod Mailbox
pub mod Transcript
pub mod Lifecycle
pub mod Resume
pub mod Migrations
pub mod History
