-- ===== src/Store/History/Remote.antt =====
-- The operations of authenticated.rs move the database only by the writes of `RespectsOther`, or, if they send, of `Respects`.
use psst.Prelude.{ℕ, Option, none, some, List}
use psst.Core.Id.{SquadId, MembershipId, InstanceId, MessageId}
use psst.Core.Value.{SquadName}
use psst.Core.State.{Availability, AvailabilitySource}
use psst.Store.Schema.{Db, SquadRecord, MessageRow, MessageRecord}
use psst.Store.Exec.{Outcome, Io}
use psst.Store.Exec.Steps.{Steps, step_rules}
use psst.Store.Message.{SendMessage}
use psst.Store.Instance.{ResumeToken, LeasePolicy, ClaimInstance}
use psst.Store.Session.{
  AuthenticatedSession, Identity, Joined, authenticate_historical, authorize_current, check_current,
  squad_by_id, squad_by_name, membership_by_id,
}
use psst.Store.Mailbox.{
  SendByName, authenticated_send, replay_or_send, replay_by_name, fresh_by_name, replay_or_fresh,
  authenticated_send_by_name, authenticated_acknowledge,
}
use psst.Store.Lifecycle.{
  JoinAndClaim, JoinClaimFault, join_and_claim_inner, authenticated_heartbeat, authenticated_leave,
  authenticated_archive, authenticated_archive_by_name,
}
use psst.Store.Resume.{authenticated_resume}
use psst.Store.Message.{find_by_dedupe}
use psst.Store.History.Writes.{RespectsOther, Respects}
use psst.Store.History.Local.{
  find_or_create_squad-Steps, resolve_retry-Steps, send_in_transaction-Steps, acknowledge_on-Steps,
  insert_instance-Steps,
}

module _ {sha256 : List ℕ → List ℕ} {R : Db → Db → Type 0} (w : RespectsOther sha256 R) where
  historical-Steps : (s : AuthenticatedSession) → Steps R (authenticate_historical sha256 s)
  unfolding authenticate_historical
  historical-Steps s = search (step_rules, w.order) depth 8

  check_current-Steps : (j : Joined) (s : SquadRecord) → Steps R (check_current sha256 j s)
  unfolding check_current
  check_current-Steps j s = search (step_rules, w.order)

  current-Steps : (s : AuthenticatedSession) → Steps R (authorize_current sha256 s)
  unfolding authorize_current
  current-Steps s = search (step_rules, w.order, historical-Steps, check_current-Steps) depth 12

  squad_by_id-Steps : (i : SquadId) → Steps R (squad_by_id i)
  unfolding squad_by_id
  squad_by_id-Steps i = search (step_rules, w.order)

  squad_by_name-Steps : (n : SquadName) → Steps R (squad_by_name n)
  unfolding squad_by_name
  squad_by_name-Steps n = search (step_rules, w.order)

  membership_by_id-Steps : (i : MembershipId) → Steps R (membership_by_id i)
  unfolding membership_by_id
  membership_by_id-Steps i = search (step_rules, w.order)

  find_by_dedupe-Steps : (r : SendMessage) → Steps R (find_by_dedupe sha256 r)
  unfolding find_by_dedupe
  find_by_dedupe-Steps r = search (step_rules, w.order)

  replay_by_name-Steps :
      (s : AuthenticatedSession) (r : SendByName) (i : Identity) (m : MembershipId)
      → Steps R (replay_by_name sha256 s r i m)
  unfolding replay_by_name
  replay_by_name-Steps s r i m = search (step_rules, w.order, find_by_dedupe-Steps) depth 12

  pub authenticated_acknowledge-Steps :
      (io : Io) (s : AuthenticatedSession) (ids : List MessageId)
      → Steps R (authenticated_acknowledge sha256 io s ids)
  unfolding authenticated_acknowledge
  authenticated_acknowledge-Steps io s ids =
      search (step_rules, w.order, current-Steps, acknowledge_on-Steps w)

  pub join_and_claim_inner-Steps :
      (io : Io) (e : Option ResumeToken) (r : JoinAndClaim) (f : Option JoinClaimFault)
      → Steps R (join_and_claim_inner sha256 io e r f)
  unfolding join_and_claim_inner
  join_and_claim_inner-Steps io e r f =
      search
        (
          step_rules,
          w.order,
          find_or_create_squad-Steps w,
          w.agent,
          w.member,
          insert_instance-Steps w,
          squad_by_id-Steps,
        )
        depth 20

  pub authenticated_heartbeat-Steps :
      (io : Io) (s : AuthenticatedSession) (a : Availability) (o : AvailabilitySource)
      (p : LeasePolicy)
      → Steps R (authenticated_heartbeat sha256 io s a o p)
  unfolding authenticated_heartbeat
  authenticated_heartbeat-Steps io s a o p =
      search (step_rules, w.order, current-Steps, w.observed) depth 12

  pub authenticated_leave-Steps :
      (io : Io) (s : AuthenticatedSession) (n : SquadName)
      → Steps R (authenticated_leave sha256 io s n)
  unfolding authenticated_leave
  authenticated_leave-Steps io s n =
      search (step_rules, w.order, current-Steps, squad_by_id-Steps, w.closed, w.left) depth 12

  pub authenticated_archive-Steps :
      (io : Io) (s : AuthenticatedSession) (i : SquadId)
      → Steps R (authenticated_archive sha256 io s i)
  unfolding authenticated_archive
  authenticated_archive-Steps io s i =
      search (step_rules, w.order, current-Steps, w.archived) depth 10

  pub authenticated_archive_by_name-Steps :
      (io : Io) (s : AuthenticatedSession) (n : SquadName)
      → Steps R (authenticated_archive_by_name sha256 io s n)
  unfolding authenticated_archive_by_name
  authenticated_archive_by_name-Steps io s n =
      search (step_rules, w.order, current-Steps, squad_by_name-Steps, w.archived) depth 12

  pub authenticated_resume-Steps :
      (io : Io) (i : InstanceId) (t : ResumeToken) (c : ClaimInstance) (n : SquadName)
      → Steps R (authenticated_resume sha256 io i t c n)
  unfolding authenticated_resume
  authenticated_resume-Steps io i t c n =
      search
        (
          step_rules,
          w.order,
          w.closed,
          membership_by_id-Steps,
          squad_by_id-Steps,
          insert_instance-Steps w,
        )
        depth 20

module _ {sha256 : List ℕ → List ℕ} {R : Db → Db → Type 0} (w : Respects sha256 R) where
  replay_or_send-Steps :
      (s : AuthenticatedSession) (r : SendMessage) (o : Option (Outcome MessageRecord))
      → Steps R (replay_or_send sha256 s r o)
  unfolding replay_or_send
  replay_or_send-Steps s r none =
      search (step_rules, w.other.order, current-Steps w.other, send_in_transaction-Steps w)
  replay_or_send-Steps s r (some x) = search (step_rules, w.other.order)

  pub authenticated_send-Steps :
      (io : Io) (s : AuthenticatedSession) (r : SendMessage)
      → Steps R (authenticated_send sha256 io s r)
  unfolding authenticated_send
  authenticated_send-Steps io s r =
      search
        (
          step_rules,
          w.other.order,
          historical-Steps w.other,
          resolve_retry-Steps w.other,
          replay_or_send-Steps,
        )
        depth 9

  fresh_by_name-Steps :
      (s : AuthenticatedSession) (r : SendByName) (i : Identity)
      → Steps R (fresh_by_name sha256 s r i)
  unfolding fresh_by_name
  fresh_by_name-Steps s r i =
      search (step_rules, w.other.order, current-Steps w.other, send_in_transaction-Steps w) depth
        12

  replay_or_fresh-Steps :
      (s : AuthenticatedSession) (r : SendByName) (i : Identity) (o : Option MessageRow)
      → Steps R (replay_or_fresh sha256 s r i o)
  unfolding replay_or_fresh
  replay_or_fresh-Steps s r i none = fresh_by_name-Steps s r i
  replay_or_fresh-Steps s r i (some m) = replay_by_name-Steps w.other s r i m.semantics.recipient

  pub authenticated_send_by_name-Steps :
      (io : Io) (s : AuthenticatedSession) (r : SendByName)
      → Steps R (authenticated_send_by_name sha256 io s r)
  unfolding authenticated_send_by_name
  authenticated_send_by_name-Steps io s r =
      search (step_rules, w.other.order, historical-Steps w.other, replay_or_fresh-Steps) depth 8
