-- ===== src/Store/Insert/Cases.antt =====
-- An INSERT either fails and leaves the database, or writes a row that meets the constraints.
use psst.Prelude.{◌≡◌, refl, Bool, true, false, exists_row}
use psst.Store.Schema.{Db, SquadRecord, AgentRow, MembershipRow, InstanceRow, MessageRow}
use psst.Store.Clash
use psst.Store.Insert.{
  checked, checked_if_new, squad_violates, membership_violates, instance_violates, message_violates,
  add_squad, add_agent, add_membership, add_instance, add_message, insert_squad,
  insert_squad_if_new, insert_agent, insert_membership_if_new, insert_instance_row, insert_message,
}

module _ (R : Db → Db → Type 0) (db : Db) (same : R db db) where
  checked-step :
      (violated : Bool) (write : Db → Db)
      → (violated ≡ false → R db (write db))
      → R db (checked violated write db).1
  checked-step true write h = same
  checked-step false write h = h refl

  checked_if_new-step :
      (conflict violated : Bool) (write : Db → Db)
      → (conflict ≡ false → violated ≡ false → R db (write db))
      → R db (checked_if_new conflict violated write db).1
  checked_if_new-step true violated write h = same
  checked_if_new-step false true write h = same
  checked_if_new-step false false write h = h refl refl

  pub insert_squad-step :
      (s : SquadRecord)
      → (squad_violates s db ≡ false → R db (add_squad s db))
      → R db (insert_squad s db).1
  unfolding insert_squad
  insert_squad-step s h = checked-step (squad_violates s db) (add_squad s) h

  pub insert_squad_if_new-step :
      (s : SquadRecord)
      → (exists_row (Clash.squad_name s) db.squads ≡ false
          → exists_row (Clash.squad_id s) db.squads ≡ false
          → R db (add_squad s db))
      → R db (insert_squad_if_new s db).1
  unfolding insert_squad_if_new
  insert_squad_if_new-step s h =
      checked_if_new-step (exists_row (Clash.squad_name s) db.squads)
        (exists_row (Clash.squad_id s) db.squads) (add_squad s) h

  pub insert_agent-step :
      (a : AgentRow)
      → (exists_row (Clash.agent_id a) db.agents ≡ false → R db (add_agent a db))
      → R db (insert_agent a db).1
  unfolding insert_agent
  insert_agent-step a h = checked-step (exists_row (Clash.agent_id a) db.agents) (add_agent a) h

  pub insert_membership_if_new-step :
      (m : MembershipRow)
      → (exists_row (Clash.active_name m) db.memberships ≡ false
          → membership_violates m db ≡ false
          → R db (add_membership m db))
      → R db (insert_membership_if_new m db).1
  unfolding insert_membership_if_new
  insert_membership_if_new-step m h =
      checked_if_new-step (exists_row (Clash.active_name m) db.memberships)
        (membership_violates m db) (add_membership m) h

  pub insert_instance_row-step :
      (i : InstanceRow)
      → (instance_violates i db ≡ false → R db (add_instance i db))
      → R db (insert_instance_row i db).1
  unfolding insert_instance_row
  insert_instance_row-step i h = checked-step (instance_violates i db) (add_instance i) h

  pub insert_message-step :
      (m : MessageRow)
      → (message_violates m db ≡ false → R db (add_message m db))
      → R db (insert_message m db).1
  unfolding insert_message
  insert_message-step m h = checked-step (message_violates m db) (add_message m) h
