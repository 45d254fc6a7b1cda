-- ===== src/Store/History/Links.antt =====
-- The references between the rows of crates/psst-store/src, kept by each write of a table.
use psst.Prelude.{
  suc, ◌≡◌, refl, Bool, true, false, not, ◌&&◌, Option, none, some, List, [], ◌∷◌, ◌++◌,
  update_rows, update_rows-All, subst, sym, All, All-append, All-imp, arith, ◌==◌,
}
use psst.Prelude.Grows.{Grows, exists_row-Grows, Grows-append}
use psst.Core.Time.{UnixMillis}
use psst.Core.Id.{SquadId, AgentId, MembershipId, MessageId}
use psst.Store.Schema.{Db, SquadRecord, AgentRow, MembershipRow, InstanceRow, MessageRow}
use psst.Store.Insert.{
  has_squad, has_agent, has_membership, has_membership_in, has_message_in, reply_is_known, numbered,
  add_message,
}
use psst.Store.Invariant.Links.{Linked, MemberLinked, InstanceLinked, MessageLinked}
use psst.Store.Repository.{left_row}
use psst.Store.Inbox.{acknowledged_row}
use psst.Store.History.Kept.{
  Extends, KeptSquad, KeptAgent, KeptMembership, KeptInstance, KeptMessage, squads-Extends,
  agents-Extends, memberships-Extends, instances-Extends, messages-Extends, KeptMembership-refl,
  KeptInstance-refl, KeptMessage-refl,
}

module _ (a b : Db) (e : Extends a b) where
  squad_kept : (id : SquadId) → has_squad id a ≡ true → has_squad id b ≡ true
  squad_kept id h =
      exists_row-Grows KeptSquad (λ s. s.id == id) (λ x y k. ground (arith, k)) a.squads b.squads
        e.squads h

  agent_kept : (id : AgentId) → has_agent id a ≡ true → has_agent id b ≡ true
  agent_kept id h =
      exists_row-Grows KeptAgent (λ s. s.id == id) (λ x y k. ground (arith, k)) a.agents b.agents
        e.agents h

  membership_kept : (id : MembershipId) → has_membership id a ≡ true → has_membership id b ≡ true
  membership_kept id h =
      exists_row-Grows KeptMembership (λ m. m.id == id) (λ x y k. ground (arith, k)) a.memberships
        b.memberships e.memberships h

  membership_in-kept :
      (id : MembershipId) (squad : SquadId)
      → has_membership_in id squad a ≡ true
      → has_membership_in id squad b ≡ true
  membership_in-kept id squad h =
      exists_row-Grows KeptMembership (λ m. m.id == id && m.squad_id == squad)
        (λ x y k. ground (arith, k)) a.memberships b.memberships e.memberships h

  message_in-kept :
      (id : MessageId) (squad : SquadId)
      → has_message_in id squad a ≡ true
      → has_message_in id squad b ≡ true
  message_in-kept id squad h =
      exists_row-Grows KeptMessage (λ m. m.id == id && m.semantics.squad == squad)
        (λ x y k. ground (arith, k)) a.messages b.messages e.messages h

  reply-kept :
      (reply : Option MessageId) (squad : SquadId)
      → reply_is_known reply squad a ≡ true
      → reply_is_known reply squad b ≡ true
  reply-kept none squad h = refl
  reply-kept (some id) squad h = message_in-kept id squad h

  MemberLinked-kept : (m : MembershipRow) → MemberLinked a m → MemberLinked b m
  MemberLinked-kept m h = (squad_kept m.squad_id h.0, agent_kept m.agent_id h.1)

  InstanceLinked-kept : (i : InstanceRow) → InstanceLinked a i → InstanceLinked b i
  InstanceLinked-kept i h = membership_kept i.membership_id h

  MessageLinked-kept : (m : MessageRow) → MessageLinked a m → MessageLinked b m
  MessageLinked-kept m h = (
    membership_in-kept m.semantics.sender m.semantics.squad h.0,
    (
      membership_in-kept m.semantics.recipient m.semantics.squad h.1.0,
      reply-kept m.semantics.reply_to m.semantics.squad h.1.1,
    ),
  )

-- A write of one table: its rows are given, and the others are linked as before.
module _ (db : Db) (l : Linked db) where
  module _ (b : Db) (e : Extends db b) where
    members : All (MemberLinked b) db.memberships
    members = All-imp _ _ db.memberships (MemberLinked-kept db b e) l.memberships

    owners : All (InstanceLinked b) db.instances
    owners = All-imp _ _ db.instances (InstanceLinked-kept db b e) l.instances

    mail : All (MessageLinked b) db.messages
    mail = All-imp _ _ db.messages (MessageLinked-kept db b e) l.messages

  pub squads-Linked :
      (rows : List SquadRecord)
      → Grows KeptSquad db.squads rows
      → Linked (record db { squads = rows })
  squads-Linked rows g =
      let e = squads-Extends db rows g in
      let b = record db { squads = rows } in
      record { memberships = members b e; instances = owners b e; messages = mail b e }

  pub agents-Linked :
      (rows : List AgentRow) → Grows KeptAgent db.agents rows → Linked (record db { agents = rows })
  agents-Linked rows g =
      let e = agents-Extends db rows g in
      let b = record db { agents = rows } in
      record { memberships = members b e; instances = owners b e; messages = mail b e }

  pub member_added :
      (m : MembershipRow)
      → not (has_squad m.squad_id db && has_agent m.agent_id db) ≡ false
      → Linked (record db { memberships = db.memberships ++ m ∷ [] })
  member_added m h =
      let b = record db { memberships = db.memberships ++ m ∷ [] } in
      let e =
        memberships-Extends db _
          (Grows-append KeptMembership KeptMembership-refl db.memberships _) in
      record {
        memberships =
            All-append _ db.memberships _ (members b e)
              (MemberLinked-kept db b e m (ground arith, ground arith), tt);
        instances = owners b e;
        messages = mail b e;
      }

  pub members_left :
      (p : MembershipRow → Bool) (t : UnixMillis)
      → Grows KeptMembership db.memberships (update_rows p (left_row t) db.memberships)
      → Linked (record db { memberships = update_rows p (left_row t) db.memberships })
  members_left p t g =
      let b = record db { memberships = update_rows p (left_row t) db.memberships } in
      let e = memberships-Extends db _ g in
      record {
        memberships =
            update_rows-All (MemberLinked b) p (left_row t) db.memberships (λ m h. h) (members b e);
        instances = owners b e;
        messages = mail b e;
      }

  pub instance_added :
      (i : InstanceRow)
      → not (has_membership i.membership_id db) ≡ false
      → Linked (record db { instances = db.instances ++ i ∷ [] })
  instance_added i h =
      let b = record db { instances = db.instances ++ i ∷ [] } in
      let e = instances-Extends db _ (Grows-append KeptInstance KeptInstance-refl db.instances _) in
      record {
        memberships = members b e;
        instances =
            All-append _ db.instances _ (owners b e)
              (InstanceLinked-kept db b e i (ground arith), tt);
        messages = mail b e;
      }

  pub instances_updated :
      (p : InstanceRow → Bool) (f : InstanceRow → InstanceRow)
      → ((i : InstanceRow) → (f i).membership_id ≡ i.membership_id)
      → Grows KeptInstance db.instances (update_rows p f db.instances)
      → Linked (record db { instances = update_rows p f db.instances })
  instances_updated p f k g =
      let b = record db { instances = update_rows p f db.instances } in
      let e = instances-Extends db _ g in
      record {
        memberships = members b e;
        instances =
            update_rows-All (InstanceLinked b) p f db.instances
              (λ i h. subst (λ id. has_membership id b ≡ true) (sym (k i)) h) (owners b e);
        messages = mail b e;
      }

  pub message_added :
      (m : MessageRow)
      → not (
          has_membership_in m.semantics.sender m.semantics.squad db
          && (has_membership_in m.semantics.recipient m.semantics.squad db
              && reply_is_known m.semantics.reply_to m.semantics.squad db))
        ≡ false
      → Linked (add_message m db)
  message_added m h =
      let b = add_message m db in
      let n = suc db.last_sequence in
      let e = messages-Extends db _ n (Grows-append KeptMessage KeptMessage-refl db.messages _) in
      record {
        memberships = members b e;
        instances = owners b e;
        messages = All-append _ db.messages _ (mail b e) (
          MessageLinked-kept db b e (numbered m n) (ground arith, (ground arith, ground arith)),
          tt,
        );
      }

  pub messages_acknowledged :
      (p : MessageRow → Bool) (t : UnixMillis)
      → Grows KeptMessage db.messages (update_rows p (acknowledged_row t) db.messages)
      → Linked (record db { messages = update_rows p (acknowledged_row t) db.messages })
  messages_acknowledged p t g =
      let b = record db { messages = update_rows p (acknowledged_row t) db.messages } in
      let e = messages-Extends db _ db.last_sequence g in
      record {
        memberships = members b e;
        instances = owners b e;
        messages =
            update_rows-All (MessageLinked b) p (acknowledged_row t) db.messages (λ m h. h)
              (mail b e);
      }
