-- ===== src/Store/History/Extends.antt =====
-- What no operation of crates/psst-store/src takes back: a row that is written stays, with its
-- identity, and an archive, a departure, a close and an acknowledgement are final.
use psst.Prelude.{suc, ℕ, ◌≡◌, Bool, true, some, List, ◌&&◌, ◌==◌, is_none, arith}
use psst.Prelude.Grows.{Grows-append, Grows-update}
use psst.Core.Time.{UnixMillis}
use psst.Core.State.{Availability, AvailabilitySource}
use psst.Store.Schema.{SquadRecord, MembershipRow, InstanceRow, MessageRow}
use psst.Store.Insert.Cases.{
  insert_squad-step, insert_squad_if_new-step, insert_agent-step, insert_membership_if_new-step,
  insert_instance_row-step, insert_message-step,
}
use psst.Store.Message.{new_row}
use psst.Store.Repository.{
  new_squad, new_member_row, archived_row, left_row, update_archived, close_instances, mark_left,
  is_active,
}
use psst.Store.Inbox.{acknowledge_one, acknowledged_row, is_owned}
use psst.Store.Instance.{instance_row, observed_row, update_observed}
use psst.Store.History.Writes.{Respects}
use psst.Store.History.Kept.{
  KeptSquad, KeptAgent, KeptMembership, KeptInstance, KeptMessage, Extends, Extends-order,
  unchanged, squads-Extends, agents-Extends, memberships-Extends, instances-Extends,
  messages-Extends, KeptSquad-refl, KeptAgent-refl, KeptMembership-refl, KeptInstance-refl,
  KeptMessage-refl,
}

pub KeptSquad-archived :
    (t : UnixMillis) (s : SquadRecord) (b : Bool)
    → (b && is_active s.state) ≡ true
    → KeptSquad s (archived_row t s)
KeptSquad-archived t s b h = ground arith

pub KeptMembership-left :
    (t : UnixMillis) (m : MembershipRow) (b : Bool)
    → (b && is_none m.left_at) ≡ true
    → KeptMembership m (left_row t m)
KeptMembership-left t m b h = ground arith

pub KeptInstance-closed :
    (t : UnixMillis) (i : InstanceRow) (b : Bool)
    → (b && is_none i.closed_at) ≡ true
    → KeptInstance i (record i { closed_at = some t })
KeptInstance-closed t i b h = ground arith

pub KeptInstance-observed :
    (sha256 : List ℕ → List ℕ) (a : Availability) (s : AvailabilitySource) (t e : UnixMillis)
    (i : InstanceRow)
    → KeptInstance i (observed_row sha256 a s t e i)
KeptInstance-observed sha256 a s t e i = ground arith

pub KeptMessage-acknowledged :
    (t : UnixMillis) (m : MessageRow) (b : Bool)
    → (b && is_none m.acknowledged_at) ≡ true
    → KeptMessage m (acknowledged_row t m)
KeptMessage-acknowledged t m b h = ground arith

-- The writes of every operation extend the database.
pub Extends-respected : (sha256 : List ℕ → List ℕ) → Respects sha256 Extends
unfolding close_instances mark_left acknowledge_one update_observed update_archived
Extends-respected sha256 = record {
  other = record {
    order = Extends-order;
    squad = λ i n m t. record {
      at = λ db.
          insert_squad-step Extends db (unchanged db) (new_squad i n m t)
            λ _. squads-Extends db _ (Grows-append KeptSquad KeptSquad-refl db.squads _);
    };
    squad_if_new = λ i n m t. record {
      at = λ db.
          insert_squad_if_new-step Extends db (unchanged db) (new_squad i n m t)
            λ _ _. squads-Extends db _ (Grows-append KeptSquad KeptSquad-refl db.squads _);
    };
    archived = λ test t. record {
      at = λ db. squads-Extends db _ (
          Grows-update KeptSquad KeptSquad-refl _ _ (λ s. KeptSquad-archived t s (test s))
            db.squads);
    };
    agent = λ a. record {
      at = λ db.
          insert_agent-step Extends db (unchanged db) a
            λ _. agents-Extends db _ (Grows-append KeptAgent KeptAgent-refl db.agents _);
    };
    member = λ r s. record {
      at = λ db. insert_membership_if_new-step Extends db (unchanged db) (new_member_row r s) λ _ _.
          memberships-Extends db _
            (Grows-append KeptMembership KeptMembership-refl db.memberships _);
    };
    left = λ id t db. memberships-Extends db _ (
        Grows-update KeptMembership KeptMembership-refl _ _
          (λ m. KeptMembership-left t m (m.id == id)) db.memberships);
    instance_new = λ c token t. record {
      at = λ db.
          insert_instance_row-step Extends db (unchanged db) (instance_row sha256 c token t) λ _.
            instances-Extends db _ (Grows-append KeptInstance KeptInstance-refl db.instances _);
    };
    closed = λ test t db. instances-Extends db _ (
        Grows-update KeptInstance KeptInstance-refl _ _ (λ i. KeptInstance-closed t i (test i))
          db.instances);
    observed = λ test a s t e db. instances-Extends db _ (
        Grows-update KeptInstance KeptInstance-refl _ _
          (λ i _. KeptInstance-observed sha256 a s t e i) db.instances);
    acknowledged = λ recipient t id db. messages-Extends db _ db.last_sequence (
        Grows-update KeptMessage KeptMessage-refl _ _
          (λ m. KeptMessage-acknowledged t m (is_owned recipient id m)) db.messages);
  };
  message = λ r n. record {
    at = λ db. insert_message-step Extends db (unchanged db) (new_row sha256 r n) λ _.
        messages-Extends db _ (suc db.last_sequence)
          (Grows-append KeptMessage KeptMessage-refl db.messages _);
  };
}
