-- ===== src/Store/History/Local.antt =====
-- The operations of repository.rs, message.rs, inbox.rs and instance.rs move the database only by the
-- writes of `RespectsOther`, or, if they send, of `Respects`.
use psst.Prelude.{ℕ, Bool, true, false, Option, none, some, List, [], ◌∷◌}
use psst.Core.Time.{UnixMillis}
use psst.Core.Id.{SquadId, MembershipId, MessageId}
use psst.Core.Value.{SquadName}
use psst.Core.Message.{MessageSemantics}
use psst.Store.Schema.{Db, SquadRecord, MessageRecord}
use psst.Store.Exec.{Outcome, Io}
use psst.Store.Exec.Steps.{Steps, step_rules}
use psst.Store.Repository.{
  JoinMembership, JoinFault, CreateSquad, create_squad, archive_squad, archive_result,
  describe_squad, existing_or_new, find_or_create_squad, join_with_fault, leave_with_fault,
}
use psst.Store.Insert.{insert_message}
use psst.Store.Message.{
  SendMessage, new_row, authorize_squad_and_members, authorize_reply, require_active_squad,
  reply_exists, resolve_retry, commit_new, retry_or_new, send_in_transaction,
  send_message_with_commit_fault,
}
use psst.Store.Inbox.{
  InboxQuery, AcknowledgeMessages, acknowledge_one, acknowledge_all, acknowledge_on,
  acknowledge_messages_with_fault, pending_inbox_on,
}
use psst.Store.Instance.{
  ResumeToken, ClaimInstance, ResumeInstance, HeartbeatInstance, insert_instance, claim_instance,
  heartbeat_instance, resume_instance_with_fault, require_active_membership,
}
use psst.Store.History.Writes.{RespectsOther, Respects}

module _ {sha256 : List ℕ → List ℕ} {R : Db → Db → Type 0} (w : RespectsOther sha256 R) where
  pub create_squad-Steps : (io : Io) (r : CreateSquad) → Steps R (create_squad io r)
  unfolding create_squad
  create_squad-Steps io r = search (step_rules, w.order, w.squad_if_new)

  pub describe_squad-Steps : (n : SquadName) → Steps R (describe_squad n)
  unfolding describe_squad
  describe_squad-Steps n = search (step_rules, w.order)

  archive_result-Steps : (n : SquadName) (b : Bool) → Steps R (archive_result n b)
  unfolding archive_result
  archive_result-Steps n true = search (step_rules, w.order)
  archive_result-Steps n false = search (step_rules, w.order, describe_squad-Steps)

  pub archive_squad-Steps :
      (io : Io) (n : SquadName) (t : UnixMillis) → Steps R (archive_squad io n t)
  unfolding archive_squad
  archive_squad-Steps io n t = search (step_rules, w.order, w.archived, archive_result-Steps)

  existing_or_new-Steps :
      (r : JoinMembership) (o : Option SquadRecord) → Steps R (existing_or_new r o)
  unfolding existing_or_new
  existing_or_new-Steps r none = search (step_rules, w.order, w.squad)
  existing_or_new-Steps r (some s) = search (step_rules, w.order)

  pub find_or_create_squad-Steps : (r : JoinMembership) → Steps R (find_or_create_squad r)
  unfolding find_or_create_squad
  find_or_create_squad-Steps r = search (step_rules, w.order, existing_or_new-Steps)

  pub join_with_fault-Steps :
      (io : Io) (r : JoinMembership) (f : Option JoinFault) → Steps R (join_with_fault io r f)
  unfolding join_with_fault
  join_with_fault-Steps io r f =
      search (step_rules, w.order, find_or_create_squad-Steps, w.agent, w.member) depth 12

  pub leave_with_fault-Steps :
      (io : Io) (s : SquadId) (m : MembershipId) (t : UnixMillis) (b : Bool)
      → Steps R (leave_with_fault io s m t b)
  unfolding leave_with_fault
  leave_with_fault-Steps io s m t b = search (step_rules, w.order, w.closed, w.left) depth 8

  require_active_squad-Steps : (o : Option SquadRecord) → Steps R (require_active_squad o)
  unfolding require_active_squad
  require_active_squad-Steps none = search (step_rules, w.order)
  require_active_squad-Steps (some s) = search (step_rules, w.order)

  pub authorize_squad_and_members-Steps :
      (m : MessageSemantics) → Steps R (authorize_squad_and_members m)
  unfolding authorize_squad_and_members
  authorize_squad_and_members-Steps m =
      search (step_rules, w.order, require_active_squad-Steps) depth 8

  pub authorize_reply-Steps : (m : MessageSemantics) → Steps R (authorize_reply m)
  unfolding authorize_reply
  authorize_reply-Steps m = known m.reply_to
    where
      known : (o : Option MessageId) → Steps R (reply_exists o m)
      known none = search (step_rules, w.order)
      known (some i) = search (step_rules, w.order)

  pub resolve_retry-Steps : (r : SendMessage) → Steps R (resolve_retry sha256 r)
  unfolding resolve_retry
  resolve_retry-Steps r = search (step_rules, w.order)

  acknowledge_all-step :
      (m : MembershipId) (t : UnixMillis) (ids : List MessageId) (db : Db)
      → R db (acknowledge_all m t ids db)
  unfolding acknowledge_all
  acknowledge_all-step m t [] db = w.order.same db
  acknowledge_all-step m t (i ∷ ids) db =
      let next = acknowledge_one m t i db in
      w.order.compose db next (acknowledge_all m t ids next) (w.acknowledged m t i db)
        (acknowledge_all-step m t ids next)

  pub acknowledge_on-Steps : (r : AcknowledgeMessages) (b : Bool) → Steps R (acknowledge_on r b)
  unfolding acknowledge_on
  acknowledge_on-Steps r b = search (step_rules, w.order, acknowledge_all-step) depth 8

  pub acknowledge_messages_with_fault-Steps :
      (io : Io) (r : AcknowledgeMessages) (b : Bool)
      → Steps R (acknowledge_messages_with_fault io r b)
  unfolding acknowledge_messages_with_fault
  acknowledge_messages_with_fault-Steps io r b = search (step_rules, w.order, acknowledge_on-Steps)

  pub pending_inbox_on-Steps : (q : InboxQuery) → Steps R (pending_inbox_on sha256 q)
  unfolding pending_inbox_on
  pending_inbox_on-Steps q = search (step_rules, w.order)

  require_active_membership-Steps : (m : MembershipId) → Steps R (require_active_membership m)
  unfolding require_active_membership
  require_active_membership-Steps m = search (step_rules, w.order)

  pub insert_instance-Steps :
      (c : ClaimInstance) (t : ResumeToken) → Steps R (insert_instance sha256 c t)
  unfolding insert_instance
  insert_instance-Steps c t = search (step_rules, w.order, w.instance_new)

  pub claim_instance-Steps :
      (io : Io) (e : Option ResumeToken) (c : ClaimInstance)
      → Steps R (claim_instance sha256 io e c)
  unfolding claim_instance
  claim_instance-Steps io e c =
      search (step_rules, w.order, require_active_membership-Steps, insert_instance-Steps) depth 12

  pub heartbeat_instance-Steps :
      (io : Io) (r : HeartbeatInstance) → Steps R (heartbeat_instance sha256 io r)
  unfolding heartbeat_instance
  heartbeat_instance-Steps io r = search (step_rules, w.order, w.observed) depth 12

  pub resume_instance_with_fault-Steps :
      (io : Io) (r : ResumeInstance) (b : Bool) → Steps R (resume_instance_with_fault sha256 io r b)
  unfolding resume_instance_with_fault
  resume_instance_with_fault-Steps io r b =
      search (step_rules, w.order, require_active_membership-Steps, w.closed, insert_instance-Steps)
        depth 14

  -- The send of one request, from what its own INSERT does.
  commit_new-at :
      (r : SendMessage)
      → ((n : ℕ) → Steps R (insert_message (new_row sha256 r n)))
      → Steps R (commit_new sha256 r)
  unfolding commit_new
  commit_new-at r h =
      search (step_rules, w.order, authorize_squad_and_members-Steps, authorize_reply-Steps, h)
        depth 8

  retry_or_new-at :
      (r : SendMessage)
      → ((n : ℕ) → Steps R (insert_message (new_row sha256 r n)))
      → (o : Option (Outcome MessageRecord)) → Steps R (retry_or_new sha256 r o)
  unfolding retry_or_new
  retry_or_new-at r h none = commit_new-at r h
  retry_or_new-at r h (some x) = search (step_rules, w.order)

  pub send_in_transaction-at :
      (r : SendMessage)
      → ((n : ℕ) → Steps R (insert_message (new_row sha256 r n)))
      → Steps R (send_in_transaction sha256 r)
  unfolding send_in_transaction
  send_in_transaction-at r h =
      search (step_rules, w.order, resolve_retry-Steps, retry_or_new-at r h)

module _ {sha256 : List ℕ → List ℕ} {R : Db → Db → Type 0} (w : Respects sha256 R) where
  pub send_in_transaction-Steps : (r : SendMessage) → Steps R (send_in_transaction sha256 r)
  send_in_transaction-Steps r = send_in_transaction-at w.other r (w.message r)

  pub send_message_with_commit_fault-Steps :
      (io : Io) (r : SendMessage) (b : Bool)
      → Steps R (send_message_with_commit_fault sha256 io r b)
  unfolding send_message_with_commit_fault
  send_message_with_commit_fault-Steps io r b =
      search (step_rules, w.other.order, send_in_transaction-Steps)
