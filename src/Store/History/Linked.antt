-- ===== src/Store/History/Linked.antt =====
-- The references between the rows of crates/psst-store/src across any sequence of operations.
use psst.Prelude.{ℕ, List, refl, some, is_none, ◌&&◌, ◌==◌, ||-right}
use psst.Prelude.Grows.{Grows-append}
use psst.Store.Schema.{Db, empty}
use psst.Store.Exec.{Io}
use psst.Store.Exec.Steps.{IsPreorder}
use psst.Store.Insert.Cases.{
  insert_squad-step, insert_squad_if_new-step, insert_agent-step, insert_membership_if_new-step,
  insert_instance_row-step, insert_message-step,
}
use psst.Store.Message.{new_row}
use psst.Store.Repository.{new_squad, new_member_row, update_archived, close_instances, mark_left}
use psst.Store.Inbox.{acknowledge_one, is_owned}
use psst.Store.Instance.{instance_row, observed_row, update_observed}
use psst.Store.Invariant.Links.{Linked}
use psst.Store.History.{Operation, run, run-respects}
use psst.Store.History.Kept.{Extends, KeptSquad, KeptAgent, KeptSquad-refl, KeptAgent-refl}
use psst.Store.History.Writes.{Respects}
use psst.Store.History.Extends.{Extends-respected}
use psst.Store.History.Links.{
  squads-Linked, agents-Linked, member_added, members_left, instance_added, instances_updated,
  message_added, messages_acknowledged,
}

module _ (sha256 : List ℕ → List ℕ) where
  -- What a write keeps.
  abbrev KeepsLinks : Db → Db → Type 0
  KeepsLinks a b = Linked a → Linked b

  KeepsLinks-order : IsPreorder KeepsLinks
  KeepsLinks-order = record { same = λ db l. l; compose = λ a b c h k l. k (h l) }

  extends : Respects sha256 Extends
  extends = Extends-respected sha256

  Linked-respected : Respects sha256 KeepsLinks
  unfolding close_instances mark_left acknowledge_one update_observed update_archived
  Linked-respected = record {
    other = record {
      order = KeepsLinks-order;
      squad = λ i n m t. record {
        at = λ db.
            insert_squad-step KeepsLinks db (λ l. l) (new_squad i n m t)
              λ _ l. squads-Linked db l _ (Grows-append KeptSquad KeptSquad-refl db.squads _);
      };
      squad_if_new = λ i n m t. record {
        at = λ db.
            insert_squad_if_new-step KeepsLinks db (λ l. l) (new_squad i n m t)
              λ _ _ l. squads-Linked db l _ (Grows-append KeptSquad KeptSquad-refl db.squads _);
      };
      archived = λ test t. record {
        at = λ db l. squads-Linked db l _ ((extends.other.archived test t).at db).squads;
      };
      agent = λ a. record {
        at = λ db.
            insert_agent-step KeepsLinks db (λ l. l) a
              λ _ l. agents-Linked db l _ (Grows-append KeptAgent KeptAgent-refl db.agents _);
      };
      member = λ r s. record {
        at = λ db.
            insert_membership_if_new-step KeepsLinks db (λ l. l) (new_member_row r s)
              λ _ h l. member_added db l (new_member_row r s) (||-right _ _ h);
      };
      left = λ id t db l.
          members_left db l (λ m. m.id == id && is_none m.left_at) t
            (extends.other.left id t db).memberships;
      instance_new = λ c token t. record {
        at = λ db.
            insert_instance_row-step KeepsLinks db (λ l. l) (instance_row sha256 c token t)
              λ h l.
                instance_added db l (instance_row sha256 c token t) (||-right _ _ (||-right _ _ h));
      };
      closed = λ test t db l.
          instances_updated db l (λ i. test i && is_none i.closed_at)
            (λ i. record i { closed_at = some t }) (λ i. refl)
            (extends.other.closed test t db).instances;
      observed = λ test a s t e db l.
          instances_updated db l test (observed_row sha256 a s t e) (λ i. refl)
            (extends.other.observed test a s t e db).instances;
      acknowledged = λ recipient t id db l.
          messages_acknowledged db l (λ m. is_owned recipient id m && is_none m.acknowledged_at) t
            (extends.other.acknowledged recipient t id db).messages;
    };
    message = λ r n. record {
      at = λ db.
          insert_message-step KeepsLinks db (λ l. l) (new_row sha256 r n)
            λ h l. message_added db l (new_row sha256 r n) (||-right _ _ (||-right _ _ h));
    };
  }

  -- Whatever operations have run on a new database, with whatever faults and answers of SQLite, no row
  -- refers to a row that is not there: every membership is in a squad on record and of an agent on
  -- record, every instance is of a membership on record, and every message is between two members of
  -- its squad and, if it is a reply, to a message of the same squad.
  pub run-Linked : (ops : List (Io × Operation)) → Linked (run sha256 ops empty)
  run-Linked ops =
      run-respects Linked-respected ops empty
        (record { memberships = tt; instances = tt; messages = tt })
