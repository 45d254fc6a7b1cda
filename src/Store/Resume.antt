-- ===== src/Store/Resume.antt =====
-- crates/psst-store/src/authenticated.rs: resuming a membership with a new instance.
mod Parts
pub mod Succession
use psst.Prelude.{
  ℕ, not, ◌&&◌, Option, none, some, is_none, ltb, exists_row, find_row, List, ◌==◌, if◌then◌else◌,
}
use psst.Core.Error.{ok, err}
use psst.Core.Id.{InstanceId}
use psst.Core.Value.{SquadName}
use psst.Store.Error.{RepositoryError}
use psst.Store.Schema.{Db, SquadRecord, MembershipRecord, InstanceRow}
use psst.Store.Exec.{
  Exec, Outcome, Io, pure, lift, query, modify, reject_if, ok_or, transaction, ◌>>=◌, ◌>>◌,
}
use psst.Store.Repository.{is_active, close_instances}
use psst.Store.Instance.{
  ResumeToken, ClaimInstance, InstanceRecord, validate_client, validate_observation, authenticate,
  insert_instance,
}
use psst.Store.Session.{Joined, joined_instance, squad_by_id, membership_by_id}

pub record SessionContext : Type 0 where
  pub membership : MembershipRecord
  pub squad : SquadRecord
  pub instance_record : InstanceRecord

-- The row that `authenticated_resume` reads: `… JOIN squads s … WHERE i.id=?1 AND m.left_at IS NULL`.
pub record ResumeAuthority : Type 0 where
  pub joined : Joined
  pub squad : SquadRecord

abbrev authority_of : Option Joined → Db → Option ResumeAuthority
authority_of none db = none
authority_of (some j) db =
    if is_none j.membership.left_at
    then elim (find_row (λ (s : SquadRecord). s.id == j.membership.squad_id) db.squads) [
      | none ↦ none
      | some s ↦ some (record { joined = j; squad = s })
    ]
    else none

unfoldable pub resume_authority : InstanceId → Db → Option ResumeAuthority
unfolding joined_instance
resume_authority id db = authority_of (joined_instance id db) db

abbrev pub refused_as {ℓ} : {A : Type ℓ} → RepositoryError → Outcome A → Outcome A
refused_as e (ok a) = ok a
refused_as e (err _) = err e

module _ (sha256 : List ℕ → List ℕ) where
  -- The new instance's arguments stand in a `ClaimInstance`, whose membership is not read.
  unfoldable pub authenticated_resume :
      Io → InstanceId → ResumeToken → ClaimInstance → SquadName → Exec SessionContext
  unfolding transaction validate_client validate_observation resume_authority authenticate
      close_instances membership_by_id squad_by_id insert_instance
  authenticated_resume io prior_instance token new_instance expected_squad = do
    lift (validate_client new_instance.client_kind new_instance.hostname)
    lift (
        validate_observation new_instance.availability new_instance.availability_source
          new_instance.now)
    transaction io do
      found ← query (resume_authority prior_instance)
      prior ← ok_or found RepositoryError.not_found
      let i = prior.joined.instance_row
      lift (refused_as RepositoryError.not_found (authenticate sha256 i.resume_token_hash token))
      reject_if (not (prior.squad.name == expected_squad)) RepositoryError.not_found
      reject_if (not (is_active prior.squad.state)) RepositoryError.squad_archived
      reject_if (is_none i.closed_at && ltb new_instance.now i.lease_expires_at)
          RepositoryError.name_in_use
      let membership = prior.joined.membership.id
      has_live_owner ← query (λ db.
          exists_row
            (λ (o : InstanceRow).
              o.membership_id == membership
              && is_none o.closed_at
              && ltb new_instance.now o.lease_expires_at)
            db.instances)
      reject_if has_live_owner RepositoryError.name_in_use
      modify (close_instances (λ o. o.membership_id == membership) new_instance.now)
      membership_record ← membership_by_id membership
      squad ← squad_by_id membership_record.squad_id
      r ← insert_instance sha256 (record new_instance { membership_id = membership }) token
      pure (record { membership = membership_record; squad = squad; instance_record = r })
