-- ===== src/Store/Invariant.antt =====
-- What holds of the tables that crates/psst-store/src writes: the UNIQUE and CHECK constraints of
-- crates/psst-store/migrations, the order of the messages, and the digests of their bodies.
pub mod Squads
pub mod Members
pub mod Instances
pub mod Messages
pub mod Links
use psst.Prelude.{ℕ, List}
use psst.Store.Schema.{Db}
use Squads.{SquadsOk}
use Members.{MembershipsOk}
use Instances.{InstancesOk}
use Messages.{MessagesOk}

pub record WellFormed (sha256 : List ℕ → List ℕ) (db : Db) : Type 0 where
  pub squads : SquadsOk db.squads
  pub memberships : MembershipsOk db.memberships
  pub instances : InstancesOk db.instances
  pub messages : MessagesOk sha256 db.messages db.last_sequence
