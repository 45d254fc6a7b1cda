-- ===== src/Store/Instance.antt =====
-- crates/psst-store/src/instance.rs: leased instances, their credential and their owner.
pub mod Ownership
pub mod Heartbeat
use psst.Prelude.{
  ℕ, String, Bool, false, not, ◌&&◌, ◌||◌, Option, none, List, [], ◌∷◌, ◌++◌, is_none, is_some_and,
  ltb, leb, eqb, max, find_row, exists_row, update_rows, ◌==◌, if◌then◌else◌,
}
use psst.Prelude.Int.{i64_max}
use psst.Prelude.Texts.{chars, as_bytes, is_empty, trim, codes_eq}
use psst.Core.Error.{Result, ok, err, DomainError}
use psst.Core.Time.{UnixMillis, Duration, from_secs, as_millis, checked_add}
use psst.Core.Id.{MembershipId, InstanceId}
use psst.Core.State.{AgentMode, Availability, AvailabilitySource, at, observe, renew_lease}
use psst.Store.Error.{RepositoryError, entropy_unavailable, injected_failure}
use psst.Store.Schema.{Db, MembershipRow, InstanceRow}
use psst.Store.Exec.{
  Exec, Outcome, Io, pure, lift, query, modify, reject_if, ok_or, transaction, ◌>>=◌, ◌>>◌,
}
use psst.Store.Insert.{insert_instance_row}
use psst.Store.Repository.{is_active, close_instances}
use psst.Store.Roster.{latest_instance}

-- The validated token of crates/psst-core/src/secret.rs is held as its encoded text.
abbrev pub ResumeToken : Type 0
ResumeToken = String

pub record LeasePolicy : Type 0 where
  pub heartbeat_interval : Duration
  pub lease_duration : Duration

-- `LeasePolicy::new`.
unfoldable pub lease_policy : Duration → Duration → Outcome LeasePolicy
lease_policy heartbeat lease =
    if eqb heartbeat 0 || leb lease heartbeat || ltb i64_max (as_millis lease)
    then err RepositoryError.invalid_request
    else ok (record { heartbeat_interval = heartbeat; lease_duration = lease })

-- `LeasePolicy::default`.
abbrev pub default_policy : LeasePolicy
default_policy = record { heartbeat_interval = from_secs 10; lease_duration = from_secs 30 }

pub record ClaimInstance : Type 0 where
  pub id : InstanceId
  pub membership_id : MembershipId
  pub mode : AgentMode
  pub client_kind : String
  pub hostname : Option String
  pub availability : Availability
  pub availability_source : AvailabilitySource
  pub now : UnixMillis
  pub lease_policy : LeasePolicy

pub record ResumeInstance : Type 0 where
  pub claim : ClaimInstance
  pub open claim use *
  pub resume_token : ResumeToken

pub record HeartbeatInstance : Type 0 where
  pub id : InstanceId
  pub resume_token : ResumeToken
  pub availability : Availability
  pub availability_source : AvailabilitySource
  pub now : UnixMillis
  pub lease_policy : LeasePolicy

pub record InstanceRecord : Type 0 where
  pub id : InstanceId
  pub membership_id : MembershipId
  pub mode : AgentMode
  pub availability : Availability
  pub availability_source : AvailabilitySource
  pub availability_observed_at : UnixMillis
  pub lease_expires_at : UnixMillis
  pub last_seen_at : UnixMillis
  pub created_at : UnixMillis
  pub closed_at : Option UnixMillis
  pub heartbeat_interval : Duration
  pub lease_duration : Duration

pub record ClaimOutcome : Type 0 where
  pub instance_record : InstanceRecord
  pub resume_token : ResumeToken

abbrev discard {ℓ} : {A : Type ℓ} → Result DomainError A → Outcome (Unit {0})
discard (ok _) = ok tt
discard (err _) = err RepositoryError.invalid_request

unfoldable pub validate_observation :
    Availability → AvailabilitySource → UnixMillis → Outcome (Unit {0})
validate_observation availability source observed_at =
    discard (observe availability source observed_at)

abbrev is_blank : String → Bool
is_blank s = is_empty (trim (chars s))

unfoldable pub validate_client : String → Option String → Outcome (Unit {0})
validate_client client_kind hostname =
    if is_blank client_kind || is_some_and hostname is_blank
    then err RepositoryError.invalid_request
    else ok tt

-- The bytes of `psst/resume-token/v1` and of the NUL behind it.
abbrev pub token_hash_domain : List ℕ
token_hash_domain = as_bytes "psst/resume-token/v1" ++ 0 ∷ []

-- `m.left_at IS NULL` and `s.state = 'active'`, joined by the membership's squad.
abbrev in_active_squad : MembershipRow → Db → Bool
in_active_squad m db = exists_row (λ s. s.id == m.squad_id && is_active s.state) db.squads

unfoldable pub require_active_membership : MembershipId → Exec (Unit {0})
unfolding ◌>>=◌
require_active_membership membership_id = do
  active ← query (λ db.
      exists_row (λ m. m.id == membership_id && is_none m.left_at && in_active_squad m db)
        db.memberships)
  reject_if (not active) RepositoryError.not_member

module _ (sha256 : List ℕ → List ℕ) where
  unfoldable pub token_hash : ResumeToken → List ℕ
  token_hash token = sha256 (token_hash_domain ++ as_bytes token)

  unfoldable pub authenticate : List ℕ → ResumeToken → Outcome (Unit {0})
  unfolding token_hash
  authenticate stored supplied =
      if codes_eq stored (token_hash supplied) then ok tt else err RepositoryError.not_member

  abbrev pub instance_row : ClaimInstance → ResumeToken → UnixMillis → InstanceRow
  instance_row c token expiry = record {
    id = c.id;
    membership_id = c.membership_id;
    mode = c.mode;
    client_kind = c.client_kind;
    hostname = c.hostname;
    resume_token_hash = token_hash token;
    availability = c.availability;
    availability_source = c.availability_source;
    availability_observed_at = c.now;
    lease_expires_at = expiry;
    last_seen_at = c.now;
    created_at = c.now;
    closed_at = none;
  }

  -- An `InstanceRecord` shows the columns of a row beside the timings of the policy.
  abbrev pub instance_record : InstanceRow → LeasePolicy → InstanceRecord
  instance_record i policy = record {
    id = i.id;
    membership_id = i.membership_id;
    mode = i.mode;
    availability = i.availability;
    availability_source = i.availability_source;
    availability_observed_at = i.availability_observed_at;
    lease_expires_at = i.lease_expires_at;
    last_seen_at = i.last_seen_at;
    created_at = i.created_at;
    closed_at = i.closed_at;
    heartbeat_interval = policy.heartbeat_interval;
    lease_duration = policy.lease_duration;
  }

  -- The arguments of `insert_instance` stand in a `ClaimInstance` beside the token.
  unfoldable pub insert_instance : ClaimInstance → ResumeToken → Exec InstanceRecord
  unfolding insert_instance_row checked_add ◌>>=◌
  insert_instance c token = do
    expiry ← ok_or (checked_add c.now c.lease_policy.lease_duration) RepositoryError.invalid_request
    insert_instance_row (instance_row c token expiry)
    pure (instance_record (instance_row c token expiry) c.lease_policy)

  -- The token comes from the operating system's generator, which may be unavailable.
  unfoldable pub claim_instance : Io → Option ResumeToken → ClaimInstance → Exec ClaimOutcome
  unfolding transaction validate_observation validate_client require_active_membership
      insert_instance
  claim_instance io entropy request = do
    lift (validate_observation request.availability request.availability_source request.now)
    lift (validate_client request.client_kind request.hostname)
    token ← ok_or entropy entropy_unavailable
    transaction io do
      require_active_membership request.membership_id
      has_history ←
          query (λ db. exists_row (λ i. i.membership_id == request.membership_id) db.instances)
      reject_if has_history RepositoryError.name_in_use
      r ← insert_instance request token
      pure (record { instance_record = r; resume_token = token })

  -- `i.closed_at IS NULL AND m.left_at IS NULL`, joined by the instance's membership.
  abbrev pub is_current : InstanceId → Db → InstanceRow → Bool
  is_current id db i =
      i.id == id
      && is_none i.closed_at
      && exists_row (λ m. m.id == i.membership_id && is_none m.left_at) db.memberships

  abbrev pub observed_row :
      Availability → AvailabilitySource → UnixMillis → UnixMillis → InstanceRow → InstanceRow
  observed_row availability source seen expiry i = record i {
    availability = availability;
    availability_source = source;
    availability_observed_at = seen;
    lease_expires_at = expiry;
    last_seen_at = seen;
  }

  -- The UPDATE of a heartbeat, on the rows that pass the test.
  unfoldable pub update_observed :
      (InstanceRow → Bool) → Availability → AvailabilitySource → UnixMillis → UnixMillis → Db → Db
  update_observed test availability source seen expiry db = record db {
    instances = update_rows test (observed_row availability source seen expiry) db.instances;
  }

  abbrev pub renewal_error : Result DomainError UnixMillis → Outcome UnixMillis
  renewal_error (ok t) = ok t
  renewal_error (err DomainError.lease_expired) = err RepositoryError.lease_expired
  renewal_error (err _) = err RepositoryError.invalid_request

  unfoldable pub heartbeat_instance : Io → HeartbeatInstance → Exec InstanceRecord
  unfolding transaction validate_observation authenticate update_observed
  heartbeat_instance io request = do
    lift (validate_observation request.availability request.availability_source request.now)
    transaction io do
      found ← query (λ db. find_row (is_current request.id db) db.instances)
      stored ← ok_or found RepositoryError.not_member
      lift (authenticate stored.resume_token_hash request.resume_token)
      let effective_now = max request.now stored.last_seen_at
      renewed ← lift (
          renewal_error (
            renew_lease (at none stored.lease_expires_at effective_now) stored.lease_expires_at
              effective_now request.lease_policy.lease_duration))
      modify (
          update_observed (λ i. i.id == request.id && is_none i.closed_at) request.availability
            request.availability_source effective_now renewed)
      pure (
          instance_record
            (record (observed_row request.availability request.availability_source effective_now
              renewed stored) { closed_at = none })
            request.lease_policy)

  unfoldable pub resume_instance_with_fault : Io → ResumeInstance → Bool → Exec InstanceRecord
  unfolding transaction validate_observation validate_client require_active_membership
      latest_instance authenticate close_instances insert_instance
  resume_instance_with_fault io request fail_after_close = do
    lift (validate_observation request.availability request.availability_source request.now)
    lift (validate_client request.client_kind request.hostname)
    transaction io do
      require_active_membership request.membership_id
      latest ← query (latest_instance request.membership_id)
      predecessor ← ok_or latest RepositoryError.not_member
      lift (authenticate predecessor.resume_token_hash request.resume_token)
      reject_if (is_none predecessor.closed_at && ltb request.now predecessor.lease_expires_at)
          RepositoryError.name_in_use
      modify (close_instances (λ i. i.membership_id == request.membership_id) request.now)
      reject_if fail_after_close injected_failure
      insert_instance request.claim request.resume_token

  unfoldable pub resume_instance : Io → ResumeInstance → Exec InstanceRecord
  unfolding resume_instance_with_fault
  resume_instance io request = resume_instance_with_fault io request false
