-- ===== src/Store/Instance/Heartbeat.antt =====
-- Heartbeats of crates/psst-store/src/instance.rs.
use psst.Prelude.{
  ℕ, ◌≡◌, ◌≤◌, ◌<◌, ◌+◌, ap, subst, ◌∙◌, Option, none, some, List, ◌&&◌, arith, is_none, exists_row,
  Bool, map, if◌then◌else◌, max, find_row, ◌==◌,
}
use psst.Prelude.Texts.{codes_eq_iff}
use psst.Core.Error.{ok}
use psst.Core.Time.{UnixMillis, as_millis}
use psst.Core.State.{at, renew_lease}
use psst.Core.State.Leases.{renew_lease-at}
use psst.Store.Error.{RepositoryError}
use psst.Store.Schema.{Db, InstanceRow}
use psst.Store.Exec.{Exec, Outcome, Io, transaction, query, lift, ok_or, modify, pure, ◌>>=◌, ◌>>◌}
use psst.Store.Exec.Atomic.{transaction-ok, Unmoved-order}
use psst.Store.Exec.Steps.{Steps-lift, Steps-ok_or}
use psst.Store.Exec.Inversion.{bind-Read, lift-ok, query-then, ok_or-ok, pure-ok}
use psst.Store.Instance.{
  HeartbeatInstance, InstanceRecord, instance_record, is_current, observed_row, renewal_error,
  token_hash, authenticate, validate_observation, update_observed, heartbeat_instance,
}

module _ (sha256 : List ℕ → List ℕ) where
  -- The time that a heartbeat counts, which never goes back behind the last one.
  abbrev pub effective_now : HeartbeatInstance → InstanceRow → UnixMillis
  effective_now r stored = max r.now stored.last_seen_at

  abbrev renewed_lease : HeartbeatInstance → InstanceRow → Outcome UnixMillis
  renewed_lease r stored = renewal_error sha256 (
      renew_lease (at none stored.lease_expires_at (effective_now r stored)) stored.lease_expires_at
        (effective_now r stored) r.lease_policy.lease_duration)

  abbrev shown_record : HeartbeatInstance → InstanceRow → UnixMillis → InstanceRecord
  shown_record r stored renewed =
      instance_record sha256
        (record (observed_row sha256 r.availability r.availability_source (effective_now r stored)
          renewed stored) { closed_at = none })
        r.lease_policy

  abbrev write_heartbeat : HeartbeatInstance → InstanceRow → UnixMillis → Exec InstanceRecord
  write_heartbeat r stored renewed =
      modify (
        update_observed sha256 (λ i. i.id == r.id && is_none i.closed_at) r.availability
          r.availability_source (effective_now r stored) renewed)
      >> pure (shown_record r stored renewed)

  abbrev renew_at : HeartbeatInstance → InstanceRow → Exec InstanceRecord
  renew_at r stored =
      lift (authenticate sha256 stored.resume_token_hash r.resume_token)
      >> (lift (renewed_lease r stored) >>= write_heartbeat r stored)

  abbrev heartbeat_body : HeartbeatInstance → Exec InstanceRecord
  heartbeat_body r = query (λ db. find_row (is_current sha256 r.id db) db.instances) >>= λ found.
      ok_or found RepositoryError.not_member >>= renew_at r

  -- The unclosed instance of the request with what the heartbeat reports, last seen at a time and
  -- leased to another; every other row is left as it is.
  abbrev beaten : HeartbeatInstance → UnixMillis → UnixMillis → InstanceRow → InstanceRow
  beaten r seen expiry i =
      if i.id == r.id && is_none i.closed_at
      then record i {
        availability = r.availability;
        availability_source = r.availability_source;
        availability_observed_at = seen;
        lease_expires_at = expiry;
        last_seen_at = seen;
      }
      else i

  -- The unclosed instance of the request, of a member that has not left.
  abbrev is_own : HeartbeatInstance → Db → InstanceRow → Bool
  is_own r db i =
      i.id == r.id
      && is_none i.closed_at
      && exists_row (λ m. m.id == i.membership_id && is_none m.left_at) db.memberships

  -- What a heartbeat that succeeds has found, and what it has written.
  pub record Beat (r : HeartbeatInstance) (db after : Db) (answer : InstanceRecord) : Type 0 where
    pub stored : InstanceRow
    pub current : find_row (is_own r db) db.instances ≡ some stored
    pub credential : stored.resume_token_hash ≡ token_hash sha256 r.resume_token
    pub running : max r.now stored.last_seen_at < stored.lease_expires_at
    pub not_shortened : stored.lease_expires_at ≤ answer.lease_expires_at
    pub long_enough :
        max r.now stored.last_seen_at + as_millis r.lease_policy.lease_duration
        ≤ answer.lease_expires_at
    pub written : after ≡ record db {
      instances =
          map (beaten r (max r.now stored.last_seen_at) answer.lease_expires_at) db.instances;
    }

  lease_terms :
      (r : HeartbeatInstance) (stored : InstanceRow) (renewed : UnixMillis)
      → renewed_lease r stored ≡ ok renewed
      → (max r.now stored.last_seen_at < stored.lease_expires_at)
        × ((stored.lease_expires_at ≤ renewed)
            × (max r.now stored.last_seen_at + as_millis r.lease_policy.lease_duration ≤ renewed))
  lease_terms r stored renewed h = ground (
    arith,
    renew_lease-at stored.lease_expires_at (max r.now stored.last_seen_at)
        r.lease_policy.lease_duration renewed,
  )

  token_matches :
      (stored : List ℕ) (token : _) (u : Unit {0})
      → authenticate sha256 stored token ≡ ok u
      → stored ≡ token_hash sha256 token
  unfolding authenticate
  token_matches stored token u h = ground (arith, codes_eq_iff stored (token_hash sha256 token))

  write_heartbeat-ok :
      (r : HeartbeatInstance) (stored : InstanceRow) (renewed : UnixMillis) (db after : Db)
      (answer : InstanceRecord)
      → write_heartbeat r stored renewed db ≡ (ok answer, after)
      → (renewed ≡ answer.lease_expires_at)
        × (after ≡ record db {
          instances = map (beaten r (max r.now stored.last_seen_at) renewed) db.instances;
        })
  unfolding ◌>>=◌ update_observed
  write_heartbeat-ok r stored renewed db after answer h =
      let written =
        update_observed sha256 (λ i. i.id == r.id && is_none i.closed_at) r.availability
          r.availability_source (max r.now stored.last_seen_at) renewed db in
      let (shown, kept) = pure-ok (shown_record r stored renewed) answer written after h in
      (ap (λ (x : InstanceRecord). x.lease_expires_at) shown, kept)

  heartbeat_body-Beat :
      (r : HeartbeatInstance) (db after : Db) (answer : InstanceRecord)
      → heartbeat_body r db ≡ (ok answer, after)
      → Beat r db after answer
  heartbeat_body-Beat r db after answer h =
      let current : Db → Option InstanceRow =
        λ d. find_row (is_current sha256 r.id d) d.instances in
      let q =
        query-then current (λ found. ok_or found RepositoryError.not_member >>= renew_at r) db after
          answer h in
      let s =
        bind-Read (ok_or (current db) RepositoryError.not_member) (renew_at r) db after answer
          (Steps-ok_or Unmoved-order _ _) q in
      let stored = s.value in
      let (found, _) = ok_or-ok (current db) RepositoryError.not_member db db stored s.first in
      let checked = authenticate sha256 stored.resume_token_hash r.resume_token in
      let t =
        bind-Read (lift checked) (λ _. lift (renewed_lease r stored) >>= write_heartbeat r stored)
          db after answer (Steps-lift Unmoved-order checked) s.then in
      let (matched, _) = lift-ok checked db db t.value t.first in
      let l =
        bind-Read (lift (renewed_lease r stored)) (write_heartbeat r stored) db after answer
          (Steps-lift Unmoved-order _) t.then in
      let (renewed, _) = lift-ok (renewed_lease r stored) db db l.value l.first in
      let (running, (kept, long)) = lease_terms r stored l.value renewed in
      let (shown, written) = write_heartbeat-ok r stored l.value db after answer l.then in
      record {
        stored = stored;
        current = found;
        credential = token_matches stored.resume_token_hash r.resume_token t.value matched;
        running = running;
        not_shortened = subst (λ e. stored.lease_expires_at ≤ e) shown kept;
        long_enough =
            subst (λ e. max r.now stored.last_seen_at + as_millis r.lease_policy.lease_duration ≤ e)
              shown long;
        written =
            written
            ∙ ap
                (λ (e : UnixMillis). record db {
                  instances = map (beaten r (max r.now stored.last_seen_at) e) db.instances;
                })
                shown;
      }

  -- A heartbeat that succeeds is of an unclosed instance of a member that has not left, by the token
  -- whose digest it stores, and while its lease runs, at a time that does not go back behind the last
  -- heartbeat. The new lease is not shorter than the old one and runs at least a lease duration from
  -- that time. The unclosed row of the instance takes the reported availability and its source, that
  -- time as its last and as the observation's, and the lease that is answered; its other columns,
  -- every other row and every other table are as before.
  pub heartbeat_instance-Beat :
      (io : Io) (r : HeartbeatInstance) (db after : Db) (answer : InstanceRecord)
      → heartbeat_instance sha256 io r db ≡ (ok answer, after)
      → Beat r db after answer
  unfolding heartbeat_instance
  heartbeat_instance-Beat io r db after answer h =
      let a =
        bind-Read (lift (validate_observation r.availability r.availability_source r.now))
          (λ _. transaction io (heartbeat_body r)) db after answer (Steps-lift Unmoved-order _) h in
      heartbeat_body-Beat r db after answer
        (transaction-ok io (heartbeat_body r) db after answer a.then)
