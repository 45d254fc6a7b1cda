-- ===== src/Store/Schema.antt =====
-- The tables of crates/psst-store/migrations and the rows that the store writes to them. A table is
-- the list of its rows in rowid order; a column is held at the type that the store binds to it.
use psst.Prelude.{ℕ, String, Option, List, []}
use psst.Core.Time.{UnixMillis}
use psst.Core.Id.{SquadId, AgentId, MembershipId, InstanceId, MessageId}
use psst.Core.Value.{SquadName, MemberName, Mission, Role, DedupeKey}
use psst.Core.State.{SquadState, AgentMode, Availability, AvailabilitySource}
use psst.Core.Message.{MessageSemantics}

-- `SquadRecord`, which is also the row of `squads`.
pub record SquadRecord : Type 0 where
  pub id : SquadId
  pub name : SquadName
  pub mission : Mission
  pub state : SquadState
  pub created_at : UnixMillis
  pub archived_at : Option UnixMillis

pub record AgentRow : Type 0 where
  pub id : AgentId
  pub created_at : UnixMillis

pub record MembershipRecord : Type 0 where
  pub id : MembershipId
  pub squad_id : SquadId
  pub agent_id : AgentId
  pub name : MemberName
  pub role : Role
  pub joined_at : UnixMillis
  pub left_at : Option UnixMillis

-- The row of `memberships`: the record, and the column of the partial unique index.
pub record MembershipRow : Type 0 where
  pub membership : MembershipRecord
  pub open membership use *
  pub normalized_name : MemberName

pub record InstanceRow : Type 0 where
  pub id : InstanceId
  pub membership_id : MembershipId
  pub mode : AgentMode
  pub client_kind : String
  pub hostname : Option String
  pub resume_token_hash : List ℕ
  pub availability : Availability
  pub availability_source : AvailabilitySource
  pub availability_observed_at : UnixMillis
  pub lease_expires_at : UnixMillis
  pub last_seen_at : UnixMillis
  pub created_at : UnixMillis
  pub closed_at : Option UnixMillis

pub record MessageRecord : Type 0 where
  pub sequence : ℕ
  pub id : MessageId
  pub semantics : MessageSemantics
  pub dedupe_key : DedupeKey
  pub created_at : UnixMillis

-- The row of `messages`: the record, and the columns that it does not show.
pub record MessageRow : Type 0 where
  pub message : MessageRecord
  pub open message use *
  pub body_hash : List ℕ
  pub acknowledged_at : Option UnixMillis

pub record Db : Type 0 where
  pub squads : List SquadRecord
  pub agents : List AgentRow
  pub memberships : List MembershipRow
  pub instances : List InstanceRow
  pub messages : List MessageRow
  -- `sqlite_sequence` of `messages`: the AUTOINCREMENT value that was given last.
  pub last_sequence : ℕ

abbrev pub empty : Db
empty = record {
  squads = [];
  agents = [];
  memberships = [];
  instances = [];
  messages = [];
  last_sequence = 0;
}
