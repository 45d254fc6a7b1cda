-- ===== src/Relay/Worker.antt =====
-- crates/psst-relay/src/lib.rs: what the worker's thread does with a command, and its loop. The clock,
-- SQLite's answers and the random bytes of a token are arguments. A reply is what is sent; that no one
-- waits for it any more changes nothing.
pub mod Histories
pub mod Woken
pub mod Arrivals
use psst.Prelude.{ℕ, Bool, true, false, Option, none, some, List, [], ◌∷◌, if◌then◌else◌}
use psst.Core.Error.{Result, ok, err}
use psst.Core.Time.{UnixMillis}
use psst.Store.Schema.{Db, SquadRecord}
use psst.Store.Exec.{Io, Exec, Outcome}
use psst.Store.Repository
use psst.Store.Roster.{RosterMember}
use psst.Store.Instance.{ResumeToken, ClaimInstance, InstanceRecord}
use psst.Store.Session.{AuthenticatedSession, MessageView}
use psst.Store.Mailbox.{
  SendOutcome, InboxPage, authenticated_send_by_name, authenticated_pending_page,
  authenticated_acknowledge,
}
use psst.Store.Transcript.{authenticated_transcript_views}
use psst.Store.Lifecycle.{
  JoinAndClaim, JoinAndClaimOutcome, LeaveOutcome, join_and_claim, authenticated_heartbeat,
  authenticated_roster, authenticated_leave, authenticated_archive_by_name,
}
use psst.Store.Resume.{SessionContext, authenticated_resume}
use psst.Relay.Registry.{NotificationRegistry, notify}
use psst.Relay.Command.{Credential, WorkerJoin, WorkerCreateSquad, WorkerResume, StoreCommand}

pub data WorkerError : Type 0 where
  rate_limited unavailable store timeout : WorkerError

pub data Reply : Type 0 where
  joined : Outcome JoinAndClaimOutcome → Reply
  squads : Outcome (List SquadRecord) → Reply
  squad : Outcome SquadRecord → Reply
  roster : Outcome (List RosterMember) → Reply
  heartbeat : Outcome InstanceRecord → Reply
  sent : Outcome SendOutcome → Reply
  page : Outcome InboxPage → Reply
  acknowledged : Outcome (Unit {0}) → Reply
  transcript : Outcome (List MessageView) → Reply
  left : Outcome LeaveOutcome → Reply
  resumed : Outcome SessionContext → Reply
  done : Result WorkerError (Unit {0}) → Reply
  -- The sender of the reply is dropped.
  dropped : Reply

-- What the command meets: the time, SQLite's answers, the token, and whether SQLite does what a
-- readiness check or a checkpoint asks of it.
pub record Circumstance : Type 0 where
  pub now : UnixMillis
  pub io : Io
  pub token : Option ResumeToken
  pub healthy : Bool

-- The store of the thread, and the registry that it shares with the handlers.
pub record Relay : Type 0 where
  pub db : Db
  pub notifications : NotificationRegistry

abbrev pub session : Credential → UnixMillis → AuthenticatedSession
session c now = record { instance_id = c.instance_id; resume_token = c.resume_token; now = now }

abbrev pub replied : {A : Type 0} → (Outcome A → Reply) → Outcome A × Db → Relay → Reply × Relay
replied f (result, db) s = (f result, record s { db = db })

abbrev pub notified : Outcome SendOutcome → NotificationRegistry → NotificationRegistry
notified (ok outcome) r = notify outcome.message.message.semantics.recipient r
notified (err _) r = r

abbrev pub sent_by : Outcome SendOutcome × Db → Relay → Reply × Relay
sent_by (result, db) s =
    (Reply.sent result, record { db = db; notifications = notified result s.notifications })

abbrev pub health : Bool → Result WorkerError (Unit {0})
health true = ok tt
health false = err WorkerError.store

-- `membership.joined_at = now`.
abbrev pub join_at : WorkerJoin → UnixMillis → JoinAndClaim
join_at r now = record {
  membership = record (r.membership) { joined_at = now };
  instance_id = r.instance_id;
  mode = r.mode;
  client_kind = r.client_kind;
  hostname = r.hostname;
  availability = r.availability;
  availability_source = r.availability_source;
  lease_policy = r.lease_policy;
}

abbrev pub create_at : WorkerCreateSquad → UnixMillis → Repository.CreateSquad
create_at r now = record { id = r.id; name = r.name; mission = r.mission; created_at = now }

-- The membership is not read.
abbrev pub resume_at : WorkerResume → UnixMillis → ClaimInstance
resume_at r now = record {
  id = r.new_instance;
  membership_id = "";
  mode = r.mode;
  client_kind = r.client_kind;
  hostname = r.hostname;
  availability = r.availability;
  availability_source = r.availability_source;
  now = now;
  lease_policy = r.lease_policy;
}

module _ (sha256 : List ℕ → List ℕ) where
  -- The match on the command in the worker's thread.
  unfoldable pub handle : Circumstance → StoreCommand → Relay → Reply × Relay
  handle c (StoreCommand.join r) s =
      replied Reply.joined (join_and_claim sha256 c.io c.token (join_at r c.now) s.db) s
  handle c StoreCommand.list_squads s = replied Reply.squads (Repository.list_squads s.db) s
  handle c (StoreCommand.create_squad r) s =
      replied Reply.squad (Repository.create_squad c.io (create_at r c.now) s.db) s
  handle c (StoreCommand.describe_squad name) s =
      replied Reply.squad (Repository.describe_squad name s.db) s
  handle c (StoreCommand.roster credential name) s =
      replied Reply.roster (authenticated_roster sha256 c.io (session credential c.now) name s.db) s
  handle c (StoreCommand.heartbeat credential a source policy) s =
      replied Reply.heartbeat
        (authenticated_heartbeat sha256 c.io (session credential c.now) a source policy s.db) s
  handle c (StoreCommand.send credential request) s =
      sent_by (authenticated_send_by_name sha256 c.io (session credential c.now) request s.db) s
  handle c (StoreCommand.pending credential limit) s =
      replied Reply.page
        (authenticated_pending_page sha256 c.io (session credential c.now) limit s.db) s
  handle c (StoreCommand.acknowledge credential ids) s =
      replied Reply.acknowledged
        (authenticated_acknowledge sha256 c.io (session credential c.now) ids s.db) s
  handle c (StoreCommand.transcript credential q) s =
      replied Reply.transcript
        (authenticated_transcript_views sha256 c.io (session credential c.now) q s.db) s
  handle c (StoreCommand.leave credential name) s =
      replied Reply.left (authenticated_leave sha256 c.io (session credential c.now) name s.db) s
  handle c (StoreCommand.archive credential name) s =
      replied Reply.squad
        (authenticated_archive_by_name sha256 c.io (session credential c.now) name s.db) s
  handle c (StoreCommand.resume r) s =
      replied Reply.resumed
        (authenticated_resume sha256 c.io r.prior.instance_id r.prior.resume_token
          (resume_at r c.now) r.squad s.db)
        s
  handle c StoreCommand.ready s = (Reply.done (health c.healthy), s)
  handle c StoreCommand.checkpoint s = (Reply.done (health c.healthy), s)

-- `StoreCommand::cancel`.
unfoldable pub cancel : StoreCommand → Reply
cancel StoreCommand.ready = Reply.done (err WorkerError.unavailable)
cancel StoreCommand.checkpoint = Reply.done (err WorkerError.unavailable)
cancel _ = Reply.dropped

-- A command as the loop receives it, with the shutdown flag that it reads then.
pub record Received : Type 0 where
  pub command : StoreCommand
  pub shutdown : Bool
  pub circumstance : Circumstance

abbrev pub answering : Reply → List Reply × Relay → List Reply × Relay
answering r (replies, s) = (r ∷ replies, s)

abbrev pub next : (Relay → List Reply × Relay) → Reply × Relay → List Reply × Relay
next go (r, s) = answering r (go s)

unfoldable pub cancel_all : List Received → List Reply
unfolding cancel
cancel_all [] = []
cancel_all (r ∷ rest) = cancel r.command ∷ cancel_all rest

module _ (sha256 : List ℕ → List ℕ) where
  -- The loop of the worker's thread, without the checkpoint behind it.
  unfoldable pub work : List Received → Relay → List Reply × Relay
  unfolding handle cancel_all
  work [] s = ([], s)
  work (r ∷ rest) s =
      let onward = next (work rest) (handle sha256 r.circumstance r.command s) in
      if r.shutdown then (cancel_all (r ∷ rest), s) else onward
