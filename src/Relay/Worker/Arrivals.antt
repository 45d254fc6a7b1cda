-- ===== src/Relay/Worker/Arrivals.antt =====
-- What a command of crates/psst-relay/src/lib.rs does to a member's mail and to its long polls.
use psst.Prelude.{ℕ, ◌≡◌, refl, ap, Bool, true, false, none, List}
use psst.Core.Id.{MembershipId}
use psst.Store.Schema.{Db}
use psst.Store.Exec.{Exec, Outcome}
use psst.Store.Exec.Steps.{Steps}
use psst.Store.Exec.Atomic.{Unmoved}
use psst.Store.Lifecycle.{join_and_claim}
use psst.Store.History.Local.{create_squad-Steps}
use psst.Store.History.Remote.{
  join_and_claim_inner-Steps, authenticated_heartbeat-Steps, authenticated_acknowledge-Steps,
  authenticated_leave-Steps, authenticated_archive_by_name-Steps, authenticated_resume-Steps,
}
use psst.Store.History.Arrivals.{NoNew, NoNew-other, still}
use psst.Relay.Command.{StoreCommand}
use psst.Relay.Worker.{
  Circumstance, Relay, Reply, replied, handle, session, join_at, create_at, resume_at,
}
use psst.Relay.Worker.Histories.{
  list_squads-Unmoved, describe_squad-Unmoved, roster_of-Unmoved, page-Unmoved, views-Unmoved,
}

abbrev pub is_send : StoreCommand → Bool
is_send (StoreCommand.send _ _) = true
is_send _ = false

-- The command brings the member no mail and wakes nobody.
pub record Quiet (k : MembershipId) (s s' : Relay) : Type 0 where
  pub mail : NoNew k s.db s'.db
  pub polls : s'.notifications ≡ s.notifications

module _ (sha256 : List ℕ → List ℕ) (k : MembershipId) where
  -- By how the store's action moves the database.
  moves :
      {A : Type 0} (m : Exec A) (s : Relay) (f : Outcome A → Reply)
      → Steps (NoNew k) m
      → Quiet k s (replied f (m s.db) s).1
  moves m s f h = record { mail = h.at s.db; polls = refl }

  reads :
      {A : Type 0} (m : Exec A) (s : Relay) (f : Outcome A → Reply)
      → Steps Unmoved m
      → Quiet k s (replied f (m s.db) s).1
  reads m s f h = record {
    mail = still k s.db (m s.db).1 (ap (λ (d : Db). d.messages) (h.at s.db));
    polls = refl;
  }

  pub handle-Quiet :
      (c : Circumstance) (command : StoreCommand) (s : Relay)
      → is_send command ≡ false
      → Quiet k s (handle sha256 c command s).1
  unfolding handle join_and_claim
  handle-Quiet c (StoreCommand.join r) s h =
      moves _ s Reply.joined
        (join_and_claim_inner-Steps (NoNew-other sha256 k) c.io c.token (join_at r c.now) none)
  handle-Quiet c StoreCommand.list_squads s h = reads _ s Reply.squads list_squads-Unmoved
  handle-Quiet c (StoreCommand.create_squad r) s h =
      moves _ s Reply.squad (create_squad-Steps (NoNew-other sha256 k) c.io (create_at r c.now))
  handle-Quiet c (StoreCommand.describe_squad name) s h =
      reads _ s Reply.squad (describe_squad-Unmoved name)
  handle-Quiet c (StoreCommand.roster credential name) s h =
      reads _ s Reply.roster (roster_of-Unmoved sha256 c.io (session credential c.now) name)
  handle-Quiet c (StoreCommand.heartbeat credential a source policy) s h =
      moves _ s Reply.heartbeat (
        authenticated_heartbeat-Steps (NoNew-other sha256 k) c.io (session credential c.now) a
          source policy)
  handle-Quiet c (StoreCommand.send credential request) s h = absurd (cc)
  handle-Quiet c (StoreCommand.pending credential limit) s h =
      reads _ s Reply.page (page-Unmoved sha256 c.io (session credential c.now) limit)
  handle-Quiet c (StoreCommand.acknowledge credential ids) s h =
      moves _ s Reply.acknowledged
        (authenticated_acknowledge-Steps (NoNew-other sha256 k) c.io (session credential c.now) ids)
  handle-Quiet c (StoreCommand.transcript credential q) s h =
      reads _ s Reply.transcript (views-Unmoved sha256 c.io (session credential c.now) q)
  handle-Quiet c (StoreCommand.leave credential name) s h =
      moves _ s Reply.left
        (authenticated_leave-Steps (NoNew-other sha256 k) c.io (session credential c.now) name)
  handle-Quiet c (StoreCommand.archive credential name) s h = moves _ s Reply.squad (
      authenticated_archive_by_name-Steps (NoNew-other sha256 k) c.io (session credential c.now)
        name)
  handle-Quiet c (StoreCommand.resume r) s h = moves _ s Reply.resumed (
      authenticated_resume-Steps (NoNew-other sha256 k) c.io r.prior.instance_id
        r.prior.resume_token (resume_at r c.now) r.squad)
  handle-Quiet c StoreCommand.ready s h = record { mail = still k s.db s.db refl; polls = refl }
  handle-Quiet c StoreCommand.checkpoint s h = record {
    mail = still k s.db s.db refl;
    polls = refl;
  }
