-- ===== src/Store/History/Writes.antt =====
-- The writes that the store's operations consist of, and the operations that they make up.
use psst.Prelude.{ℕ, Bool, List}
use psst.Core.Time.{UnixMillis}
use psst.Core.Id.{SquadId, MembershipId, MessageId}
use psst.Core.Value.{SquadName, Mission}
use psst.Core.State.{Availability, AvailabilitySource}
use psst.Store.Schema.{Db, SquadRecord, AgentRow, InstanceRow}
use psst.Store.Exec.Steps.{IsPreorder, Steps}
use psst.Store.Insert.{
  insert_squad, insert_squad_if_new, insert_agent, insert_membership_if_new, insert_instance_row,
  insert_message,
}
use psst.Store.Repository.{
  JoinMembership, new_squad, new_member_row, update_archived, close_instances, mark_left,
}
use psst.Store.Message.{SendMessage, new_row}
use psst.Store.Inbox.{acknowledge_one}
use psst.Store.Instance.{ResumeToken, ClaimInstance, instance_row, update_observed}

-- The relation respects each statement that writes, at the rows that the program writes, but the one
-- that stores a message.
pub record RespectsOther (sha256 : List ℕ → List ℕ) (R : Db → Db → Type 0) : Type 0 where
  pub order : IsPreorder R
  pub squad :
      (i : SquadId) (n : SquadName) (m : Mission) (t : UnixMillis)
      → Steps R (insert_squad (new_squad i n m t))
  pub squad_if_new :
      (i : SquadId) (n : SquadName) (m : Mission) (t : UnixMillis)
      → Steps R (insert_squad_if_new (new_squad i n m t))
  pub archived : (test : SquadRecord → Bool) (t : UnixMillis) → Steps R (update_archived test t)
  pub agent : (a : AgentRow) → Steps R (insert_agent a)
  pub member :
      (r : JoinMembership) (s : SquadId) → Steps R (insert_membership_if_new (new_member_row r s))
  pub left : (id : MembershipId) (t : UnixMillis) (db : Db) → R db (mark_left id t db)
  pub instance_new :
      (c : ClaimInstance) (token : ResumeToken) (t : UnixMillis)
      → Steps R (insert_instance_row (instance_row sha256 c token t))
  pub closed :
      (test : InstanceRow → Bool) (t : UnixMillis) (db : Db) → R db (close_instances test t db)
  pub observed :
      (test : InstanceRow → Bool) (a : Availability) (s : AvailabilitySource) (t e : UnixMillis)
      (db : Db)
      → R db (update_observed sha256 test a s t e db)
  pub acknowledged :
      (recipient : MembershipId) (t : UnixMillis) (id : MessageId) (db : Db)
      → R db (acknowledge_one recipient t id db)

-- It respects that one too.
pub record Respects (sha256 : List ℕ → List ℕ) (R : Db → Db → Type 0) : Type 0 where
  pub other : RespectsOther sha256 R
  pub message : (r : SendMessage) (n : ℕ) → Steps R (insert_message (new_row sha256 r n))
