-- ===== src/Tests.antt =====
-- A small squad on which the modules below run the code and apply the theorems.
mod Sends
mod Histories
mod Inboxes
mod Migrated
mod Sessions
mod Values
mod Activations
mod Waiters
mod Retries
mod Credentials
mod Relays
mod Journals
use psst.Prelude.{ℕ, none, some, List, [], ◌∷◌, String, ◌++◌}
use psst.Prelude.Texts.{as_bytes}
use psst.Core.Time.{from_secs}
use psst.Core.State.{AgentMode, SquadState, Availability, AvailabilitySource}
use psst.Core.Message.{MessageSemantics, MessagePriority}
use psst.Store.Schema.{
  Db, SquadRecord, AgentRow, MembershipRow, InstanceRow, MessageRow, MessageRecord,
}
use psst.Store.Instance.{ResumeToken, token_hash_domain}
use psst.Store.Message.{SendMessage}
use psst.Store.Session.{AuthenticatedSession}

-- A digest for the tests: the bytes themselves.
abbrev pub digest : List ℕ → List ℕ
digest bytes = bytes

abbrev pub team : SquadRecord
team = record {
  id = "sqd_team";
  name = "team";
  mission = "ship";
  state = SquadState.active;
  created_at = 100;
  archived_at = none;
}

abbrev pub old_team : SquadRecord
old_team = record {
  id = "sqd_old";
  name = "old";
  mission = "done";
  state = SquadState.archived;
  created_at = 10;
  archived_at = some 50;
}

abbrev member : String → String → String → MembershipRow
member id agent name = record {
  membership = record {
    id = id;
    squad_id = "sqd_team";
    agent_id = agent;
    name = name;
    role = "dev";
    joined_at = 100;
    left_at = none;
  };
  normalized_name = name;
}

abbrev pub alice : MembershipRow
alice = member "mem_alice" "agt_alice" "alice"

abbrev pub bob : MembershipRow
bob = member "mem_bob" "agt_bob" "bob"

-- A member that has left.
abbrev pub carol : MembershipRow
carol = record (member "mem_carol" "agt_carol" "carol") {
  membership = record (member "mem_carol" "agt_carol" "carol").membership { left_at = some 150 };
}

abbrev pub alice_token : ResumeToken
alice_token = "secret"

abbrev pub alice_instance : InstanceRow
alice_instance = record {
  id = "ins_alice";
  membership_id = "mem_alice";
  mode = AgentMode.cooperative;
  client_kind = "codex";
  hostname = none;
  resume_token_hash = token_hash_domain ++ as_bytes "secret";
  availability = Availability.idle;
  availability_source = AvailabilitySource.agent_reported;
  availability_observed_at = 200;
  lease_expires_at = 30200;
  last_seen_at = 200;
  created_at = 200;
  closed_at = none;
}

abbrev pub old_instance : InstanceRow
old_instance = record alice_instance {
  id = "ins_old";
  membership_id = "mem_carol";
  created_at = 110;
  closed_at = some 150;
}

abbrev pub people : Db
people = record {
  squads = team ∷ old_team ∷ [];
  agents =
      record { id = "agt_alice"; created_at = 100 }
      ∷ record { id = "agt_bob"; created_at = 100 }
      ∷ record { id = "agt_carol"; created_at = 100 }
      ∷ [];
  memberships = alice ∷ bob ∷ carol ∷ [];
  instances = old_instance ∷ alice_instance ∷ [];
  messages = [];
  last_sequence = 0;
}

abbrev pub greeting : MessageSemantics
greeting = record {
  squad = "sqd_team";
  sender = "mem_alice";
  recipient = "mem_bob";
  body = "hello";
  priority = MessagePriority.normal;
  reply_to = none;
  correlation_id = none;
}

abbrev pub request : SendMessage
request = record { id = "msg_1"; semantics = greeting; dedupe_key = "key"; created_at = 300 }

-- The retry of a client that lost the answer, under a new id.
abbrev pub again : SendMessage
again = record request { id = "msg_2"; created_at = 400 }

-- Another message under the same key.
abbrev pub other : SendMessage
other = record again { semantics = record greeting { body = "goodbye" } }

abbrev pub sent_record : MessageRecord
sent_record = record {
  sequence = 1;
  id = "msg_1";
  semantics = greeting;
  dedupe_key = "key";
  created_at = 300;
}

abbrev pub sent_row : MessageRow
sent_row = record { message = sent_record; body_hash = as_bytes "hello"; acknowledged_at = none }

abbrev pub after_send : Db
after_send = record people { messages = sent_row ∷ []; last_sequence = 1 }

abbrev pub session : AuthenticatedSession
session = record { instance_id = "ins_alice"; resume_token = "secret"; now = 1000 }
