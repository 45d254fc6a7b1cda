-- ===== src/Relay/Command.antt =====
-- crates/psst-relay/src/lib.rs: the commands that the worker's thread takes from its queue.
use psst.Prelude.{ℕ, String, Option, List}
use psst.Core.Id.{SquadId, InstanceId, MessageId}
use psst.Core.Value.{SquadName, Mission}
use psst.Core.State.{AgentMode, Availability, AvailabilitySource}
use psst.Store.Repository.{JoinMembership}
use psst.Store.Instance.{ResumeToken, LeasePolicy}
use psst.Store.Mailbox.{SendByName}
use psst.Store.Transcript.{TranscriptByName}

pub record Credential : Type 0 where
  pub instance_id : InstanceId
  pub resume_token : ResumeToken

pub record WorkerJoin : Type 0 where
  pub membership : JoinMembership
  pub instance_id : InstanceId
  pub mode : AgentMode
  pub client_kind : String
  pub hostname : Option String
  pub availability : Availability
  pub availability_source : AvailabilitySource
  pub lease_policy : LeasePolicy

pub record WorkerCreateSquad : Type 0 where
  pub id : SquadId
  pub name : SquadName
  pub mission : Mission

pub record WorkerResume : Type 0 where
  pub prior : Credential
  pub squad : SquadName
  pub new_instance : InstanceId
  pub mode : AgentMode
  pub client_kind : String
  pub hostname : Option String
  pub availability : Availability
  pub availability_source : AvailabilitySource
  pub lease_policy : LeasePolicy

pub data StoreCommand : Type 0 where
  join : WorkerJoin → StoreCommand
  list_squads : StoreCommand
  create_squad : WorkerCreateSquad → StoreCommand
  describe_squad : SquadName → StoreCommand
  roster : Credential → SquadName → StoreCommand
  heartbeat : Credential → Availability → AvailabilitySource → LeasePolicy → StoreCommand
  send : Credential → SendByName → StoreCommand
  pending : Credential → ℕ → StoreCommand
  acknowledge : Credential → List MessageId → StoreCommand
  transcript : Credential → TranscriptByName → StoreCommand
  leave : Credential → SquadName → StoreCommand
  archive : Credential → SquadName → StoreCommand
  resume : WorkerResume → StoreCommand
  ready : StoreCommand
  checkpoint : StoreCommand
