-- ===== src/Store/Lifecycle.antt =====
-- crates/psst-store/src/authenticated.rs: joining with a first instance, heartbeats, leaving,
-- archiving and resuming under a session credential.
use psst.Prelude.{ℕ, String, Bool, true, false, not, Option, none, is_some_and, max, List, ◌==◌}
use psst.Core.Error.{Result, ok, err, DomainError}
use psst.Core.Time.{UnixMillis}
use psst.Core.Id.{SquadId, MembershipId, InstanceId}
use psst.Core.Value.{SquadName}
use psst.Core.State.{AgentMode, Availability, AvailabilitySource, at, renew_lease}
use psst.Store.Error.{RepositoryError, entropy_unavailable, injected_failure}
use psst.Store.Schema.{SquadRecord, MembershipRecord}
use psst.Store.Exec.{
  Exec, Outcome, Io, pure, lift, modify, reject_if, ok_or, transaction, ◌>>=◌, ◌>>◌,
}
use psst.Store.Insert.{insert_agent, insert_membership_if_new}
use psst.Store.Repository.{
  JoinMembership, is_active, find_or_create_squad, new_membership, new_member_row, update_archived,
  archived_row, close_instances, mark_left,
}
use psst.Store.Roster.{RosterMember, roster}
use psst.Store.Instance.{
  ResumeToken, LeasePolicy, ClaimInstance, ClaimOutcome, InstanceRecord, validate_client,
  validate_observation, insert_instance, update_observed,
}
use psst.Store.Session.{
  AuthenticatedSession, Identity, authenticate_historical, authorize_current, squad_by_id,
  squad_by_name,
}

pub record JoinAndClaim : Type 0 where
  pub membership : JoinMembership
  pub instance_id : InstanceId
  pub mode : AgentMode
  pub client_kind : String
  pub hostname : Option String
  pub availability : Availability
  pub availability_source : AvailabilitySource
  pub lease_policy : LeasePolicy

pub record JoinAndClaimOutcome : Type 0 where
  pub membership : MembershipRecord
  pub squad : SquadRecord
  pub claim : ClaimOutcome

pub record LeaveOutcome : Type 0 where
  pub membership_id : MembershipId
  pub left_at : UnixMillis

pub data JoinClaimFault : Type 0 where
  at_squad at_agent at_membership at_instance : JoinClaimFault

abbrev fault_eq : JoinClaimFault → JoinClaimFault → Bool
fault_eq at_squad at_squad = true
fault_eq at_agent at_agent = true
fault_eq at_membership at_membership = true
fault_eq at_instance at_instance = true
fault_eq _ _ = false

unfoldable pub inject_join_claim_fault : Option JoinClaimFault → JoinClaimFault → Exec (Unit {0})
unfolding reject_if
inject_join_claim_fault actual point =
    reject_if (is_some_and actual (λ f. fault_eq f point)) injected_failure

-- The arguments that `join_and_claim_inner` hands to `insert_instance`.
abbrev pub first_claim : JoinAndClaim → ClaimInstance
first_claim r = record {
  id = r.instance_id;
  membership_id = r.membership.membership_id;
  mode = r.mode;
  client_kind = r.client_kind;
  hostname = r.hostname;
  availability = r.availability;
  availability_source = r.availability_source;
  now = r.membership.joined_at;
  lease_policy = r.lease_policy;
}

abbrev renewal : Result DomainError UnixMillis → Outcome UnixMillis
renewal (ok t) = ok t
renewal (err _) = err RepositoryError.lease_expired

module _ (sha256 : List ℕ → List ℕ) where
  unfoldable pub join_and_claim_inner :
      Io → Option ResumeToken → JoinAndClaim → Option JoinClaimFault → Exec JoinAndClaimOutcome
  unfolding transaction validate_client validate_observation find_or_create_squad insert_agent
      insert_membership_if_new insert_instance inject_join_claim_fault squad_by_id
  join_and_claim_inner io entropy request fault = do
    lift (validate_client request.client_kind request.hostname)
    lift (
        validate_observation request.availability request.availability_source
          request.membership.joined_at)
    token ← ok_or entropy entropy_unavailable
    transaction io do
      squad ← find_or_create_squad request.membership
      inject_join_claim_fault fault at_squad
      insert_agent
          (record { id = request.membership.agent_id; created_at = request.membership.joined_at })
      inject_join_claim_fault fault at_agent
      let m = new_membership request.membership squad
      changed ← insert_membership_if_new (new_member_row request.membership squad)
      reject_if (not changed) RepositoryError.name_in_use
      inject_join_claim_fault fault at_membership
      r ← insert_instance sha256 (first_claim request) token
      inject_join_claim_fault fault at_instance
      s ← squad_by_id squad
      pure (record {
        membership = m;
        squad = s;
        claim = record { instance_record = r; resume_token = token };
      })

  unfoldable pub join_and_claim : Io → Option ResumeToken → JoinAndClaim → Exec JoinAndClaimOutcome
  unfolding join_and_claim_inner
  join_and_claim io entropy request = join_and_claim_inner io entropy request none

  -- The columns that a heartbeat returns beside the new ones come from the identity.
  abbrev heartbeat_record :
      AuthenticatedSession
      → Identity
      → Availability
      → AvailabilitySource
      → UnixMillis
      → UnixMillis
      → LeasePolicy
      → InstanceRecord
  heartbeat_record session identity availability source seen expiry policy = record {
    id = session.instance_id;
    membership_id = identity.membership;
    mode = identity.mode;
    availability = availability;
    availability_source = source;
    availability_observed_at = seen;
    lease_expires_at = expiry;
    last_seen_at = seen;
    created_at = identity.created_at;
    closed_at = none;
    heartbeat_interval = policy.heartbeat_interval;
    lease_duration = policy.lease_duration;
  }

  unfoldable pub authenticated_heartbeat :
      Io
      → AuthenticatedSession
      → Availability
      → AvailabilitySource
      → LeasePolicy
      → Exec InstanceRecord
  unfolding transaction validate_observation authorize_current update_observed
  authenticated_heartbeat io session availability source policy = do
    lift (validate_observation availability source session.now)
    transaction io do
      identity ← authorize_current sha256 session
      let effective_now = max session.now identity.last_seen
      expiry ← lift (
          renewal (
            renew_lease (at none identity.expiry effective_now) identity.expiry effective_now
              policy.lease_duration))
      modify (
          update_observed sha256 (λ i. i.id == session.instance_id) availability source
            effective_now expiry)
      pure (heartbeat_record session identity availability source effective_now expiry policy)

  unfoldable pub authenticated_roster :
      Io → AuthenticatedSession → SquadName → Exec (List RosterMember)
  unfolding transaction authenticate_historical squad_by_id roster
  authenticated_roster io session expected_squad = do
    transaction io do
      identity ← authenticate_historical sha256 session
      s ← squad_by_id identity.squad
      reject_if (not (s.name == expected_squad)) RepositoryError.not_found
    roster expected_squad session.now

  unfoldable pub authenticated_leave : Io → AuthenticatedSession → SquadName → Exec LeaveOutcome
  unfolding transaction authorize_current squad_by_id close_instances mark_left
  authenticated_leave io session expected_squad = transaction io do
    identity ← authorize_current sha256 session
    s ← squad_by_id identity.squad
    reject_if (not (s.name == expected_squad)) RepositoryError.not_found
    modify (close_instances (λ i. i.id == session.instance_id) session.now)
    modify (mark_left identity.membership session.now)
    pure (record { membership_id = identity.membership; left_at = session.now })

  unfoldable pub authenticated_archive : Io → AuthenticatedSession → SquadId → Exec (Unit {0})
  unfolding transaction authorize_current update_archived
  authenticated_archive io session squad = transaction io do
    identity ← authorize_current sha256 session
    reject_if (not (identity.squad == squad)) RepositoryError.not_member
    changed ← update_archived (λ s. s.id == squad) session.now
    reject_if (not changed) RepositoryError.squad_archived

  unfoldable pub authenticated_archive_by_name :
      Io → AuthenticatedSession → SquadName → Exec SquadRecord
  unfolding transaction authorize_current squad_by_name update_archived
  authenticated_archive_by_name io session squad_name = transaction io do
    identity ← authorize_current sha256 session
    squad ← squad_by_name squad_name
    reject_if (not (identity.squad == squad.id)) RepositoryError.not_member
    reject_if (not (is_active squad.state)) RepositoryError.squad_archived
    update_archived (λ s. s.id == squad.id) session.now
    pure (archived_row session.now squad)
