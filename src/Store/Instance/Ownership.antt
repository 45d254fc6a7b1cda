-- ===== src/Store/Instance/Ownership.antt =====
-- One live owner per membership: crates/psst-store/src/instance.rs.
use psst.Prelude.{ℕ, ◌≡◌, ◌+◌, ap, ◌∙◌, Bool, false, Option, some, List, arith, exists_row, ◌==◌}
use psst.Prelude.Texts.{codes_eq_iff}
use psst.Core.Error.{ok}
use psst.Core.Time.{as_millis}
use psst.Core.Id.{MembershipId}
use psst.Store.Error.{RepositoryError, entropy_unavailable}
use psst.Store.Schema.{Db, InstanceRow}
use psst.Store.Exec.{Exec, Io, transaction, query, lift, ok_or, reject_if, pure, ◌>>=◌, ◌>>◌}
use psst.Store.Exec.Atomic.{transaction-ok, Unmoved, Unmoved-order}
use psst.Store.Exec.Steps.{Steps, step_rules, Steps-lift, Steps-ok_or}
use psst.Store.Exec.Inversion.{bind-Read, bind-Answered, guard-ok, query-then, pure-ok, ok_or-ok}
use psst.Store.Insert.{add_instance}
use psst.Store.Instance.{
  ResumeToken, ClaimInstance, ClaimOutcome, InstanceRecord, instance_row, instance_record,
  token_hash, authenticate, validate_observation, validate_client, require_active_membership,
  insert_instance, claim_instance,
}

module _ (sha256 : List ℕ → List ℕ) where
  pub insert_instance-ok :
      (c : ClaimInstance) (token : ResumeToken) (db after : Db) (r : InstanceRecord)
      → insert_instance sha256 c token db ≡ (ok r, after)
      → (r.lease_expires_at ≡ c.now + as_millis c.lease_policy.lease_duration)
        × ((r
              ≡ instance_record sha256
                  (instance_row sha256 c token r.lease_expires_at)
                  c.lease_policy)
            × (after ≡ add_instance (instance_row sha256 c token r.lease_expires_at) db))
  unfolding insert_instance
  insert_instance-ok c token db after r h = ground arith

  authenticate-ok :
      (stored : List ℕ) (token : ResumeToken)
      → authenticate sha256 stored token ≡ ok tt
      → stored ≡ token_hash sha256 token
  unfolding authenticate
  authenticate-ok stored token h = ground (arith, codes_eq_iff stored (token_hash sha256 token))

  require_active_membership-same :
      (id : MembershipId) → Steps Unmoved (require_active_membership id)
  unfolding require_active_membership
  require_active_membership-same id = search (step_rules, Unmoved-order) depth 8

  abbrev claimed_row : ClaimInstance → ResumeToken → InstanceRow
  claimed_row c token =
      instance_row sha256 c token (c.now + as_millis c.lease_policy.lease_duration)

  -- The parts of `claim_instance`.
  abbrev owned_by : MembershipId → Db → Bool
  owned_by id db = exists_row (λ i. i.membership_id == id) db.instances

  abbrev first_instance : ClaimInstance → ResumeToken → Exec ClaimOutcome
  first_instance c token = insert_instance sha256 c token >>= λ r.
      pure (record { instance_record = r; resume_token = token })

  abbrev unless_owned : ClaimInstance → ResumeToken → Bool → Exec ClaimOutcome
  unless_owned c token has_history =
      reject_if has_history RepositoryError.name_in_use >> first_instance c token

  abbrev claim_body : ClaimInstance → ResumeToken → Exec ClaimOutcome
  claim_body c token =
      require_active_membership c.membership_id
      >> (query (owned_by c.membership_id) >>= unless_owned c token)

  claim_body-ok :
      (c : ClaimInstance) (token : ResumeToken) (db after : Db) (o : ClaimOutcome)
      → claim_body c token db ≡ (ok o, after)
      → ((owned_by c.membership_id db ≡ false) × (token ≡ o.resume_token))
        × (after ≡ add_instance (claimed_row c token) db)
  claim_body-ok c token db after o h =
      let m =
        bind-Read (require_active_membership c.membership_id)
          (λ _. query (owned_by c.membership_id) >>= unless_owned c token) db after o
          (require_active_membership-same c.membership_id) h in
      let q = query-then (owned_by c.membership_id) (unless_owned c token) db after o m.then in
      let (first, go) =
        guard-ok (owned_by c.membership_id db) RepositoryError.name_in_use (first_instance c token)
          db after o q in
      let i =
        bind-Answered (insert_instance sha256 c token)
          (λ r. pure (record { instance_record = r; resume_token = token })) db after o go in
      let (expiry, (_, written)) = insert_instance-ok c token db i.mid i.value i.first in
      let (shown, kept) =
        pure-ok (record { instance_record = i.value; resume_token = token }) o i.mid after i.then in
      (
        (first, ap (λ (x : ClaimOutcome). x.resume_token) shown),
        kept ∙ written ∙ ap (λ t. add_instance (instance_row sha256 c token t) db) expiry,
      )

  -- A claim that succeeds is the first of its membership, which had no instance, closed or not,
  -- before; it writes that one row, whose lease ends a lease duration from now and whose credential is
  -- the digest of the token that is handed out, the token of the operating system's generator.
  pub claim_instance-first :
      (io : Io) (entropy : Option ResumeToken) (c : ClaimInstance) (db after : Db)
      (o : ClaimOutcome)
      → claim_instance sha256 io entropy c db ≡ (ok o, after)
      → ((exists_row (λ i. i.membership_id == c.membership_id) db.instances ≡ false)
          × (entropy ≡ some o.resume_token))
        × (after
            ≡ add_instance
                (instance_row sha256 c o.resume_token
                  (c.now + as_millis c.lease_policy.lease_duration))
                db)
  unfolding claim_instance
  claim_instance-first io entropy c db after o h =
      let a =
        bind-Read (lift (validate_observation c.availability c.availability_source c.now)) _ db
          after o (Steps-lift Unmoved-order _) h in
      let b =
        bind-Read (lift (validate_client c.client_kind c.hostname)) _ db after o
          (Steps-lift Unmoved-order _) a.then in
      let t =
        bind-Read (ok_or entropy entropy_unavailable) (λ token. transaction io (claim_body c token))
          db after o (Steps-ok_or Unmoved-order _ _) b.then in
      let ((first, same), written) =
        claim_body-ok c t.value db after o
          (transaction-ok io (claim_body c t.value) db after o t.then) in
      let (given, _) = ok_or-ok entropy entropy_unavailable db db t.value t.first in
      (
        (first, given ∙ ap some same),
        written ∙ ap (λ token. add_instance (claimed_row c token) db) same,
      )
