-- ===== src/Core.antt =====
-- crates/psst-core/src: the validated values, lifecycle states, leases and message semantics.
pub mod Error
pub mod Codes
pub mod Time
pub mod Value
pub mod Id
pub mod State
pub mod Message
pub mod Secret
