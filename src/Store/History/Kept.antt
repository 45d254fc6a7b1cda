-- ===== src/Store/History/Kept.antt =====
-- What a row that is changed keeps, in the tables of crates/psst-store/src, and databases that only grow.
use psst.Prelude.{ℕ, ◌≡◌, refl, ◌∙◌, false, List, is_none, arith}
use psst.Prelude.Grows.{Grows, Grows-refl, Grows-trans}
use psst.Core.State.{archived}
use psst.Store.Schema.{Db, SquadRecord, AgentRow, MembershipRow, InstanceRow, MessageRow}
use psst.Store.Exec.Steps.{IsPreorder}

pub record KeptSquad (a b : SquadRecord) : Type 0 where
  pub id : b.id ≡ a.id
  pub name : b.name ≡ a.name
  pub mission : b.mission ≡ a.mission
  pub created_at : b.created_at ≡ a.created_at
  pub final : a.state ≡ archived → b ≡ a

pub record KeptAgent (a b : AgentRow) : Type 0 where
  pub same : b ≡ a

pub record KeptMembership (a b : MembershipRow) : Type 0 where
  pub id : b.id ≡ a.id
  pub squad_id : b.squad_id ≡ a.squad_id
  pub agent_id : b.agent_id ≡ a.agent_id
  pub name : b.name ≡ a.name
  pub role : b.role ≡ a.role
  pub joined_at : b.joined_at ≡ a.joined_at
  pub final : is_none a.left_at ≡ false → b ≡ a

pub record KeptInstance (a b : InstanceRow) : Type 0 where
  pub id : b.id ≡ a.id
  pub membership_id : b.membership_id ≡ a.membership_id
  pub resume_token_hash : b.resume_token_hash ≡ a.resume_token_hash
  pub created_at : b.created_at ≡ a.created_at
  pub final : is_none a.closed_at ≡ false → b.closed_at ≡ a.closed_at

pub record KeptMessage (a b : MessageRow) : Type 0 where
  pub message : b.message ≡ a.message
  pub body_hash : b.body_hash ≡ a.body_hash
  pub final : is_none a.acknowledged_at ≡ false → b.acknowledged_at ≡ a.acknowledged_at

pub record Extends (a b : Db) : Type 0 where
  pub squads : Grows KeptSquad a.squads b.squads
  pub agents : Grows KeptAgent a.agents b.agents
  pub memberships : Grows KeptMembership a.memberships b.memberships
  pub instances : Grows KeptInstance a.instances b.instances
  pub messages : Grows KeptMessage a.messages b.messages

pub KeptSquad-refl : (a : SquadRecord) → KeptSquad a a
KeptSquad-refl a = ground arith

pub KeptAgent-refl : (a : AgentRow) → KeptAgent a a
KeptAgent-refl a = record { same = refl }

pub KeptMembership-refl : (a : MembershipRow) → KeptMembership a a
KeptMembership-refl a = ground arith

pub KeptInstance-refl : (a : InstanceRow) → KeptInstance a a
KeptInstance-refl a = ground arith

pub KeptMessage-refl : (a : MessageRow) → KeptMessage a a
KeptMessage-refl a = ground arith

KeptSquad-trans : (a b c : SquadRecord) → KeptSquad a b → KeptSquad b c → KeptSquad a c
KeptSquad-trans a b c h k = ground arith

KeptAgent-trans : (a b c : AgentRow) → KeptAgent a b → KeptAgent b c → KeptAgent a c
KeptAgent-trans a b c h k = record { same = k.same ∙ h.same }

KeptMembership-trans :
    (a b c : MembershipRow) → KeptMembership a b → KeptMembership b c → KeptMembership a c
KeptMembership-trans a b c h k = ground arith

KeptInstance-trans : (a b c : InstanceRow) → KeptInstance a b → KeptInstance b c → KeptInstance a c
KeptInstance-trans a b c h k = ground arith

KeptMessage-trans : (a b c : MessageRow) → KeptMessage a b → KeptMessage b c → KeptMessage a c
KeptMessage-trans a b c h k = ground arith

pub Extends-order : IsPreorder Extends
Extends-order = record {
  same = λ db. record {
    squads = Grows-refl KeptSquad KeptSquad-refl db.squads;
    agents = Grows-refl KeptAgent KeptAgent-refl db.agents;
    memberships = Grows-refl KeptMembership KeptMembership-refl db.memberships;
    instances = Grows-refl KeptInstance KeptInstance-refl db.instances;
    messages = Grows-refl KeptMessage KeptMessage-refl db.messages;
  };
  compose = λ a b c h k. record {
    squads = Grows-trans KeptSquad KeptSquad-trans a.squads b.squads c.squads h.squads k.squads;
    agents = Grows-trans KeptAgent KeptAgent-trans a.agents b.agents c.agents h.agents k.agents;
    memberships =
        Grows-trans KeptMembership KeptMembership-trans a.memberships b.memberships c.memberships
          h.memberships k.memberships;
    instances =
        Grows-trans KeptInstance KeptInstance-trans a.instances b.instances c.instances h.instances
          k.instances;
    messages =
        Grows-trans KeptMessage KeptMessage-trans a.messages b.messages c.messages h.messages
          k.messages;
  };
}

-- A write of one table leaves the others as they were.
module _ (db : Db) where
  pub unchanged : Extends db db
  unchanged = Extends-order.same db

  pub squads-Extends :
      (rows : List SquadRecord)
      → Grows KeptSquad db.squads rows
      → Extends db (record db { squads = rows })
  squads-Extends rows g = record {
    squads = g;
    agents = unchanged.agents;
    memberships = unchanged.memberships;
    instances = unchanged.instances;
    messages = unchanged.messages;
  }

  pub memberships-Extends :
      (rows : List MembershipRow)
      → Grows KeptMembership db.memberships rows
      → Extends db (record db { memberships = rows })
  memberships-Extends rows g = record {
    squads = unchanged.squads;
    agents = unchanged.agents;
    memberships = g;
    instances = unchanged.instances;
    messages = unchanged.messages;
  }

  pub instances-Extends :
      (rows : List InstanceRow)
      → Grows KeptInstance db.instances rows
      → Extends db (record db { instances = rows })
  instances-Extends rows g = record {
    squads = unchanged.squads;
    agents = unchanged.agents;
    memberships = unchanged.memberships;
    instances = g;
    messages = unchanged.messages;
  }

  pub messages-Extends :
      (rows : List MessageRow) (n : ℕ)
      → Grows KeptMessage db.messages rows
      → Extends db (record db { messages = rows; last_sequence = n })
  messages-Extends rows n g = record {
    squads = unchanged.squads;
    agents = unchanged.agents;
    memberships = unchanged.memberships;
    instances = unchanged.instances;
    messages = g;
  }

  pub agents-Extends :
      (rows : List AgentRow)
      → Grows KeptAgent db.agents rows
      → Extends db (record db { agents = rows })
  agents-Extends rows g = record {
    squads = unchanged.squads;
    agents = g;
    memberships = unchanged.memberships;
    instances = unchanged.instances;
    messages = unchanged.messages;
  }
