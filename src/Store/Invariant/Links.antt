-- ===== src/Store/Invariant/Links.antt =====
-- The REFERENCES constraints of crates/psst-store/migrations on the rows that are stored.
use psst.Prelude.{◌≡◌, true, All}
use psst.Store.Schema.{Db, MembershipRow, InstanceRow, MessageRow}
use psst.Store.Insert.{has_squad, has_agent, has_membership, has_membership_in, reply_is_known}

-- A membership is in a squad on record and of an agent on record.
abbrev pub MemberLinked : Db → MembershipRow → Type 0
MemberLinked db m = (has_squad m.squad_id db ≡ true) × (has_agent m.agent_id db ≡ true)

-- An instance is of a membership on record.
abbrev pub InstanceLinked : Db → InstanceRow → Type 0
InstanceLinked db i = has_membership i.membership_id db ≡ true

-- Sender and recipient are members of the message's squad, and a reply is to a message in it.
abbrev pub MessageLinked : Db → MessageRow → Type 0
MessageLinked db m =
    (has_membership_in m.semantics.sender m.semantics.squad db ≡ true)
    × ((has_membership_in m.semantics.recipient m.semantics.squad db ≡ true)
        × (reply_is_known m.semantics.reply_to m.semantics.squad db ≡ true))

pub record Linked (db : Db) : Type 0 where
  pub memberships : All (MemberLinked db) db.memberships
  pub instances : All (InstanceLinked db) db.instances
  pub messages : All (MessageLinked db) db.messages
