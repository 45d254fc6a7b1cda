-- ===== src/Relay/Worker/Histories.antt =====
-- What the worker of crates/psst-relay/src/lib.rs does to the store is a history of its operations.
use psst.Prelude.{
  ℕ, ◌≡◌, inl, inr, refl, sym, ap, ◌∙◌, none, List, [], ◌∷◌, ◌++◌, Bool-cases, if◌then◌else◌,
}
use psst.Core.Time.{UnixMillis}
use psst.Core.Value.{SquadName}
use psst.Core.Id.{SquadId}
use psst.Store.Schema.{Db, SquadRecord}
use psst.Store.Exec.{Io}
use psst.Store.Exec.Steps.{Steps, step_rules}
use psst.Store.Exec.Atomic.{Unmoved, Unmoved-order}
use psst.Store.Repository.{list_squads, describe_squad}
use psst.Store.Roster.{roster}
use psst.Store.Inbox.{InboxQuery, pending_inbox_on}
use psst.Store.Session.{
  AuthenticatedSession, Joined, authenticate_historical, authorize_current, check_current,
  squad_by_id,
}
use psst.Store.Mailbox.{authenticated_pending_page}
use psst.Store.Transcript.{TranscriptByName, authenticated_transcript_views}
use psst.Store.Lifecycle.{authenticated_roster, join_and_claim}
use psst.Store.History.{Operation, run, perform}
use psst.Relay.Command.{StoreCommand}
use psst.Relay.Worker.{
  Circumstance, Relay, Received, handle, work, session, join_at, create_at, resume_at,
}

pub list_squads-Unmoved : Steps Unmoved list_squads
unfolding list_squads
list_squads-Unmoved = search (step_rules, Unmoved-order)

pub describe_squad-Unmoved : (n : SquadName) → Steps Unmoved (describe_squad n)
unfolding describe_squad
describe_squad-Unmoved n = search (step_rules, Unmoved-order) depth 8

roster-Unmoved : (n : SquadName) (t : UnixMillis) → Steps Unmoved (roster n t)
unfolding roster
roster-Unmoved n t = search (step_rules, Unmoved-order, describe_squad-Unmoved) depth 10

squad_by_id-Unmoved : (i : SquadId) → Steps Unmoved (squad_by_id i)
unfolding squad_by_id
squad_by_id-Unmoved i = search (step_rules, Unmoved-order)

module _ (sha256 : List ℕ → List ℕ) where
  historical-Unmoved : (s : AuthenticatedSession) → Steps Unmoved (authenticate_historical sha256 s)
  unfolding authenticate_historical
  historical-Unmoved s = search (step_rules, Unmoved-order) depth 9

  check_current-Unmoved : (j : Joined) (s : SquadRecord) → Steps Unmoved (check_current sha256 j s)
  unfolding check_current
  check_current-Unmoved j s = search (step_rules, Unmoved-order) depth 9

  current-Unmoved : (s : AuthenticatedSession) → Steps Unmoved (authorize_current sha256 s)
  unfolding authorize_current
  current-Unmoved s =
      search (step_rules, Unmoved-order, historical-Unmoved, check_current-Unmoved) depth 14

  pending_inbox_on-Unmoved : (q : InboxQuery) → Steps Unmoved (pending_inbox_on sha256 q)
  unfolding pending_inbox_on
  pending_inbox_on-Unmoved q = search (step_rules, Unmoved-order) depth 8

  pub roster_of-Unmoved :
      (io : Io) (s : AuthenticatedSession) (n : SquadName)
      → Steps Unmoved (authenticated_roster sha256 io s n)
  unfolding authenticated_roster
  roster_of-Unmoved io s n =
      search (step_rules, Unmoved-order, historical-Unmoved, squad_by_id-Unmoved, roster-Unmoved)
        depth 14

  pub page-Unmoved :
      (io : Io) (s : AuthenticatedSession) (limit : ℕ)
      → Steps Unmoved (authenticated_pending_page sha256 io s limit)
  unfolding authenticated_pending_page
  page-Unmoved io s limit =
      search (step_rules, Unmoved-order, current-Unmoved, pending_inbox_on-Unmoved) depth 18

  pub views-Unmoved :
      (io : Io) (s : AuthenticatedSession) (q : TranscriptByName)
      → Steps Unmoved (authenticated_transcript_views sha256 io s q)
  unfolding authenticated_transcript_views
  views-Unmoved io s q =
      search (step_rules, Unmoved-order, current-Unmoved, squad_by_id-Unmoved) depth 18

-- The operations of the store that a command stands for; a read is none.
abbrev pub operations : Circumstance → StoreCommand → List (Io × Operation)
operations c (StoreCommand.join r) =
    (c.io, Operation.session_joins c.token (join_at r c.now) none) ∷ []
operations c (StoreCommand.create_squad r) =
    (c.io, Operation.creates_squad (create_at r c.now)) ∷ []
operations c (StoreCommand.heartbeat credential a source policy) =
    (c.io, Operation.session_heartbeats (session credential c.now) a source policy) ∷ []
operations c (StoreCommand.send credential request) =
    (c.io, Operation.session_sends_by_name (session credential c.now) request) ∷ []
operations c (StoreCommand.acknowledge credential ids) =
    (c.io, Operation.session_acknowledges (session credential c.now) ids) ∷ []
operations c (StoreCommand.leave credential name) =
    (c.io, Operation.session_leaves (session credential c.now) name) ∷ []
operations c (StoreCommand.archive credential name) =
    (c.io, Operation.session_archives_by_name (session credential c.now) name) ∷ []
operations c (StoreCommand.resume r) =
    (
      c.io,
      Operation.session_resumes r.prior.instance_id r.prior.resume_token (resume_at r c.now)
          r.squad,
    )
    ∷ []
operations c _ = []

-- Those of the commands before the shutdown.
abbrev pub operations_of : List Received → List (Io × Operation)
operations_of [] = []
operations_of (r ∷ rest) =
    if r.shutdown then [] else operations r.circumstance r.command ++ operations_of rest

module _ (sha256 : List ℕ → List ℕ) where
  handle-run :
      (c : Circumstance) (command : StoreCommand) (s : Relay)
      → (handle sha256 c command s).1.db ≡ run sha256 (operations c command) s.db
  unfolding handle run join_and_claim
  handle-run c (StoreCommand.join r) s = refl
  handle-run c StoreCommand.list_squads s = list_squads-Unmoved.at s.db
  handle-run c (StoreCommand.create_squad r) s = refl
  handle-run c (StoreCommand.describe_squad name) s = (describe_squad-Unmoved name).at s.db
  handle-run c (StoreCommand.roster credential name) s =
      (roster_of-Unmoved sha256 c.io (session credential c.now) name).at s.db
  handle-run c (StoreCommand.heartbeat credential a source policy) s = refl
  handle-run c (StoreCommand.send credential request) s = refl
  handle-run c (StoreCommand.pending credential limit) s =
      (page-Unmoved sha256 c.io (session credential c.now) limit).at s.db
  handle-run c (StoreCommand.acknowledge credential ids) s = refl
  handle-run c (StoreCommand.transcript credential q) s =
      (views-Unmoved sha256 c.io (session credential c.now) q).at s.db
  handle-run c (StoreCommand.leave credential name) s = refl
  handle-run c (StoreCommand.archive credential name) s = refl
  handle-run c (StoreCommand.resume r) s = refl
  handle-run c StoreCommand.ready s = refl
  handle-run c StoreCommand.checkpoint s = refl

  run-append :
      (xs ys : List (Io × Operation)) (db : Db)
      → run sha256 (xs ++ ys) db ≡ run sha256 ys (run sha256 xs db)
  unfolding run
  run-append [] ys db = refl
  run-append ((io, op) ∷ xs) ys db = run-append xs ys (perform sha256 io op db)

  run-nil : (db : Db) → run sha256 [] db ≡ db
  unfolding run
  run-nil db = refl

  -- What the worker leaves in the store is what the history of the store's operations leaves that the
  -- commands stand for which it took before the shutdown, each at the time at which it was taken; the
  -- commands that only read stand for none. So every theorem on histories is one on the relay.
  pub work-run :
      (received : List Received) (s : Relay)
      → (work sha256 received s).1.db ≡ run sha256 (operations_of received) s.db
  unfolding work
  work-run [] s = sym (run-nil s.db)
  work-run (r ∷ rest) s = elim (Bool-cases r.shutdown) [
    | inl stopped ↦ rw stopped (sym (run-nil s.db))
    | inr goes ↦ rw goes (
        work-run rest (handle sha256 r.circumstance r.command s).1
        ∙ ap (λ (db : Db). run sha256 (operations_of rest) db)
            (handle-run r.circumstance r.command s)
        ∙ sym (run-append (operations r.circumstance r.command) (operations_of rest) s.db))
  ]
