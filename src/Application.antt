-- ===== src/Application.antt =====
-- crates/psst-application: the activation of a harness when mail is pending, and the journal of a leave.
pub mod Activation
pub mod Profile
pub mod Journal
