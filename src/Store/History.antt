-- ===== src/Store/History.antt =====
-- Histories of crates/psst-store/src: every operation that writes is built from a few writes of the
-- tables, so a relation that those writes respect holds across any sequence of operations.
pub mod Writes
pub mod Arrivals
pub mod Local
pub mod Remote
pub mod Kept
pub mod Extends
pub mod Failures
pub mod Final
pub mod Retries
pub mod Sound
mod Links
pub mod Linked
use psst.Prelude.{ℕ, Bool, Option, List, [], ◌∷◌}
use psst.Core.Time.{UnixMillis}
use psst.Core.Id.{SquadId, MembershipId, InstanceId, MessageId}
use psst.Core.Value.{SquadName}
use psst.Core.State.{Availability, AvailabilitySource}
use psst.Store.Schema.{Db}
use psst.Core.Error.{ok, err}
use psst.Store.Exec.{Io, Exec, Outcome}
use psst.Store.Exec.Steps.{Steps}
use psst.Store.Repository.{
  CreateSquad, JoinMembership, JoinFault, create_squad, archive_squad, join_with_fault,
  leave_with_fault,
}
use psst.Store.Message.{SendMessage, send_message_with_commit_fault}
use psst.Store.Inbox.{AcknowledgeMessages, acknowledge_messages_with_fault}
use psst.Store.Instance.{
  ResumeToken, LeasePolicy, ClaimInstance, ResumeInstance, HeartbeatInstance, claim_instance,
  heartbeat_instance, resume_instance_with_fault,
}
use psst.Store.Session.{AuthenticatedSession}
use psst.Store.Mailbox.{
  SendByName, authenticated_send, authenticated_send_by_name, authenticated_acknowledge,
}
use psst.Store.Lifecycle.{
  JoinAndClaim, JoinClaimFault, join_and_claim_inner, authenticated_heartbeat, authenticated_leave,
  authenticated_archive, authenticated_archive_by_name,
}
use psst.Store.Resume.{authenticated_resume}
use Writes.{Respects}
use Local.{
  create_squad-Steps, archive_squad-Steps, join_with_fault-Steps, leave_with_fault-Steps,
  send_message_with_commit_fault-Steps, acknowledge_messages_with_fault-Steps, claim_instance-Steps,
  heartbeat_instance-Steps, resume_instance_with_fault-Steps,
}
use Remote.{
  authenticated_send-Steps, authenticated_send_by_name-Steps, authenticated_acknowledge-Steps,
  join_and_claim_inner-Steps, authenticated_heartbeat-Steps, authenticated_leave-Steps,
  authenticated_archive-Steps, authenticated_archive_by_name-Steps, authenticated_resume-Steps,
}

-- Every method of `Store` that writes, with its arguments; the faults are those of its tests.
pub data Operation : Type 0 where
  creates_squad : CreateSquad → Operation
  archives_squad : SquadName → UnixMillis → Operation
  joins : JoinMembership → Option JoinFault → Operation
  leaves : SquadId → MembershipId → UnixMillis → Bool → Operation
  sends : SendMessage → Bool → Operation
  acknowledges : AcknowledgeMessages → Bool → Operation
  claims : Option ResumeToken → ClaimInstance → Operation
  heartbeats : HeartbeatInstance → Operation
  resumes : ResumeInstance → Bool → Operation
  session_joins : Option ResumeToken → JoinAndClaim → Option JoinClaimFault → Operation
  session_heartbeats :
      AuthenticatedSession → Availability → AvailabilitySource → LeasePolicy → Operation
  session_sends : AuthenticatedSession → SendMessage → Operation
  session_sends_by_name : AuthenticatedSession → SendByName → Operation
  session_acknowledges : AuthenticatedSession → List MessageId → Operation
  session_leaves : AuthenticatedSession → SquadName → Operation
  session_archives : AuthenticatedSession → SquadId → Operation
  session_archives_by_name : AuthenticatedSession → SquadName → Operation
  session_resumes : InstanceId → ResumeToken → ClaimInstance → SquadName → Operation

abbrev pub forget {ℓ} : {A : Type ℓ} → Outcome A → Outcome (Unit {0})
forget (ok a) = ok tt
forget (err e) = err e

abbrev pub discard {ℓ} : {A : Type ℓ} → Exec A → Exec (Unit {0})
discard m db = (forget (m db).0, (m db).1)

module _ (sha256 : List ℕ → List ℕ) where
  -- An operation, with its answer forgotten but for the error.
  unfoldable pub execute : Io → Operation → Exec (Unit {0})
  execute io (creates_squad r) = discard (create_squad io r)
  execute io (archives_squad n t) = discard (archive_squad io n t)
  execute io (joins r f) = discard (join_with_fault io r f)
  execute io (leaves s m t f) = discard (leave_with_fault io s m t f)
  execute io (sends r f) = discard (send_message_with_commit_fault sha256 io r f)
  execute io (acknowledges r f) = discard (acknowledge_messages_with_fault io r f)
  execute io (claims e c) = discard (claim_instance sha256 io e c)
  execute io (heartbeats r) = discard (heartbeat_instance sha256 io r)
  execute io (resumes r f) = discard (resume_instance_with_fault sha256 io r f)
  execute io (session_joins e r f) = discard (join_and_claim_inner sha256 io e r f)
  execute io (session_heartbeats s a o p) = discard (authenticated_heartbeat sha256 io s a o p)
  execute io (session_sends s r) = discard (authenticated_send sha256 io s r)
  execute io (session_sends_by_name s r) = discard (authenticated_send_by_name sha256 io s r)
  execute io (session_acknowledges s ids) = discard (authenticated_acknowledge sha256 io s ids)
  execute io (session_leaves s n) = discard (authenticated_leave sha256 io s n)
  execute io (session_archives s i) = discard (authenticated_archive sha256 io s i)
  execute io (session_archives_by_name s n) = discard (authenticated_archive_by_name sha256 io s n)
  execute io (session_resumes i t c n) = discard (authenticated_resume sha256 io i t c n)

  -- The database after an operation, whatever the operation answers.
  unfoldable pub perform : Io → Operation → Db → Db
  unfolding execute
  perform io op db = (execute io op db).1

  unfoldable pub run : List (Io × Operation) → Db → Db
  unfolding perform
  run [] db = db
  run ((io, op) ∷ rest) db = run rest (perform io op db)

module _ {sha256 : List ℕ → List ℕ} {R : Db → Db → Type 0} (w : Respects sha256 R) where
  pub perform-respects : (io : Io) (op : Operation) (db : Db) → R db (perform sha256 io op db)
  unfolding perform
  perform-respects io (creates_squad r) db = (create_squad-Steps w.other io r).at db
  perform-respects io (archives_squad n t) db = (archive_squad-Steps w.other io n t).at db
  perform-respects io (joins r f) db = (join_with_fault-Steps w.other io r f).at db
  perform-respects io (leaves s m t f) db = (leave_with_fault-Steps w.other io s m t f).at db
  perform-respects io (sends r f) db = (send_message_with_commit_fault-Steps w io r f).at db
  perform-respects io (acknowledges r f) db =
      (acknowledge_messages_with_fault-Steps w.other io r f).at db
  perform-respects io (claims e c) db = (claim_instance-Steps w.other io e c).at db
  perform-respects io (heartbeats r) db = (heartbeat_instance-Steps w.other io r).at db
  perform-respects io (resumes r f) db = (resume_instance_with_fault-Steps w.other io r f).at db
  perform-respects io (session_joins e r f) db = (join_and_claim_inner-Steps w.other io e r f).at db
  perform-respects io (session_heartbeats s a o p) db =
      (authenticated_heartbeat-Steps w.other io s a o p).at db
  perform-respects io (session_sends s r) db = (authenticated_send-Steps w io s r).at db
  perform-respects io (session_sends_by_name s r) db =
      (authenticated_send_by_name-Steps w io s r).at db
  perform-respects io (session_acknowledges s ids) db =
      (authenticated_acknowledge-Steps w.other io s ids).at db
  perform-respects io (session_leaves s n) db = (authenticated_leave-Steps w.other io s n).at db
  perform-respects io (session_archives s i) db = (authenticated_archive-Steps w.other io s i).at db
  perform-respects io (session_archives_by_name s n) db =
      (authenticated_archive_by_name-Steps w.other io s n).at db
  perform-respects io (session_resumes i t c n) db =
      (authenticated_resume-Steps w.other io i t c n).at db

  pub run-respects : (ops : List (Io × Operation)) (db : Db) → R db (run sha256 ops db)
  unfolding run
  run-respects [] db = w.other.order.same db
  run-respects ((io, op) ∷ rest) db =
      let next = perform sha256 io op db in
      w.other.order.compose db next (run sha256 rest next) (perform-respects io op db)
        (run-respects rest next)
