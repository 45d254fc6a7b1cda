-- ===== src/Store/History/Sound.antt =====
-- The tables of crates/psst-store/src across any sequence of operations.
use psst.Prelude.{ℕ, suc, List, ||-left, ||-right}
use psst.Store.Schema.{Db, SquadRecord, AgentRow, MembershipRow, InstanceRow, MessageRow, empty}
use psst.Store.Exec.{Io}
use psst.Store.Exec.Steps.{IsPreorder}
use psst.Store.Insert.Cases.{
  insert_squad-step, insert_squad_if_new-step, insert_agent-step, insert_membership_if_new-step,
  insert_instance_row-step, insert_message-step,
}
use psst.Store.Message.{new_row}
use psst.Store.Repository.{new_squad, new_member_row, update_archived, close_instances, mark_left}
use psst.Store.Inbox.{acknowledge_one}
use psst.Store.Instance.{instance_row, update_observed}
use psst.Store.Invariant.{WellFormed}
use psst.Store.Invariant.Squads.{SquadsOk, SquadsOk-add, SquadsOk-archive}
use psst.Store.Invariant.Members.{MembershipsOk, MembershipsOk-add, MembershipsOk-leave}
use psst.Store.Invariant.Instances.{
  InstancesOk, InstancesOk-add, InstancesOk-update, close-KeepsOwner, observe-KeepsOwner,
}
use psst.Store.Invariant.Messages.{MessagesOk, MessagesOk-add, MessagesOk-acknowledge}
use psst.Store.History.{Operation, run, run-respects}
use psst.Store.History.Writes.{Respects}

module _ (sha256 : List ℕ → List ℕ) where
  -- What a write keeps.
  abbrev Keeps : Db → Db → Type 0
  Keeps a b = WellFormed sha256 a → WellFormed sha256 b

  Keeps-order : IsPreorder Keeps
  Keeps-order = record { same = λ db ok. ok; compose = λ a b c h k ok. k (h ok) }

  module _ (db : Db) (ok : WellFormed sha256 db) where
    agents-WellFormed : (rows : List AgentRow) → WellFormed sha256 (record db { agents = rows })
    agents-WellFormed rows = record {
      squads = ok.squads;
      memberships = ok.memberships;
      instances = ok.instances;
      messages = ok.messages;
    }

    squads-WellFormed :
        (rows : List SquadRecord) → SquadsOk rows → WellFormed sha256 (record db { squads = rows })
    squads-WellFormed rows h = record {
      squads = h;
      memberships = ok.memberships;
      instances = ok.instances;
      messages = ok.messages;
    }

    memberships-WellFormed :
        (rows : List MembershipRow)
        → MembershipsOk rows
        → WellFormed sha256 (record db { memberships = rows })
    memberships-WellFormed rows h = record {
      squads = ok.squads;
      memberships = h;
      instances = ok.instances;
      messages = ok.messages;
    }

    instances-WellFormed :
        (rows : List InstanceRow)
        → InstancesOk rows
        → WellFormed sha256 (record db { instances = rows })
    instances-WellFormed rows h = record {
      squads = ok.squads;
      memberships = ok.memberships;
      instances = h;
      messages = ok.messages;
    }

    messages-WellFormed :
        (rows : List MessageRow) (n : ℕ)
        → MessagesOk sha256 rows n
        → WellFormed sha256 (record db { messages = rows; last_sequence = n })
    messages-WellFormed rows n h = record {
      squads = ok.squads;
      memberships = ok.memberships;
      instances = ok.instances;
      messages = h;
    }

  WellFormed-respected : Respects sha256 Keeps
  unfolding close_instances mark_left acknowledge_one update_observed update_archived
  WellFormed-respected = record {
    other = record {
      order = Keeps-order;
      squad = λ i n m t. record {
        at = λ db.
            insert_squad-step Keeps db (λ ok. ok) (new_squad i n m t)
              λ h ok.
                squads-WellFormed db ok _
                  (SquadsOk-add db.squads i n m t ok.squads (||-left _ _ h) (||-right _ _ h));
      };
      squad_if_new = λ i n m t. record {
        at = λ db.
            insert_squad_if_new-step Keeps db (λ ok. ok) (new_squad i n m t)
              λ hn hi ok.
                squads-WellFormed db ok _ (SquadsOk-add db.squads i n m t ok.squads hi hn);
      };
      archived = λ test t. record {
        at = λ db ok. squads-WellFormed db ok _ (SquadsOk-archive _ t db.squads ok.squads);
      };
      agent = λ a. record {
        at = λ db. insert_agent-step Keeps db (λ ok. ok) a λ _ ok. agents-WellFormed db ok _;
      };
      member = λ r s. record {
        at = λ db.
            insert_membership_if_new-step Keeps db (λ ok. ok) (new_member_row r s)
              λ hn h ok.
                memberships-WellFormed db ok _
                  (MembershipsOk-add db.memberships r s ok.memberships (||-left _ _ h) hn);
      };
      left = λ id t db ok.
          memberships-WellFormed db ok _ (MembershipsOk-leave _ t db.memberships ok.memberships);
      instance_new = λ c token t. record {
        at = λ db.
            insert_instance_row-step Keeps db (λ ok. ok) (instance_row sha256 c token t)
              λ h ok. instances-WellFormed db ok _ (
                InstancesOk-add db.instances _ ok.instances (||-left _ _ h)
                  (||-left _ _ (||-right _ _ h)));
      };
      closed = λ test t db ok.
          instances-WellFormed db ok _
            (InstancesOk-update _ _ (close-KeepsOwner t) db.instances ok.instances);
      observed = λ test a s t e db ok.
          instances-WellFormed db ok _
            (InstancesOk-update _ _ (observe-KeepsOwner sha256 a s t e) db.instances ok.instances);
      acknowledged = λ recipient t id db ok.
          messages-WellFormed db ok _ db.last_sequence
            (MessagesOk-acknowledge sha256 _ t db.messages db.last_sequence ok.messages);
    };
    message = λ r n. record {
      at = λ db.
          insert_message-step Keeps db (λ ok. ok) (new_row sha256 r n)
            λ h ok. messages-WellFormed db ok _ (suc db.last_sequence) (
              MessagesOk-add sha256 db.messages db.last_sequence r ok.messages (||-left _ _ h)
                (||-left _ _ (||-right _ _ h)));
    };
  }

  empty-WellFormed : WellFormed sha256 empty
  empty-WellFormed = record {
    squads = record { ids = tt; names = tt; states = tt };
    memberships = record { ids = tt; active_names = tt; names = tt };
    instances = record { ids = tt; owners = tt };
    messages = record { ids = tt; keys = tt; order = tt; numbers = tt; bodies = tt };
  }

  -- Whatever operations have run on a new database, with whatever faults and answers of SQLite: no two
  -- squads share an id or a name, and a squad has a time of archival exactly if it is archived; no two
  -- memberships share an id, no two active members of a squad share a name; no two instances share
  -- an id, no membership has two unclosed instances; no two messages share an id, or sender, squad and
  -- deduplication key, they are stored in strictly increasing order of their sequence numbers, none
  -- has a number beyond the last given, and the stored digest of every body is the body's.
  pub run-WellFormed : (ops : List (Io × Operation)) → WellFormed sha256 (run sha256 ops empty)
  run-WellFormed ops = run-respects WellFormed-respected ops empty empty-WellFormed
