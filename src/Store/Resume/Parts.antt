-- ===== src/Store/Resume/Parts.antt =====
-- The parts of `authenticated_resume` in crates/psst-store/src/authenticated.rs, and its last ones.
use psst.Prelude.{ℕ, ◌≡◌, ◌+◌, ap, ◌∙◌, Bool, not, ◌&&◌, List, is_none, ltb, exists_row, ◌==◌}
use psst.Core.Error.{ok}
use psst.Core.Time.{UnixMillis, as_millis}
use psst.Core.Id.{InstanceId, MembershipId}
use psst.Core.Value.{SquadName}
use psst.Store.Error.{RepositoryError}
use psst.Store.Schema.{Db, InstanceRow, MembershipRecord}
use psst.Store.Exec.{Exec, query, lift, ok_or, reject_if, modify, pure, ◌>>=◌, ◌>>◌}
use psst.Store.Exec.Atomic.{Unmoved, Unmoved-order}
use psst.Store.Exec.Steps.{Steps, step_rules}
use psst.Store.Exec.Inversion.{bind-Read, bind-Answered, pure-ok}
use psst.Store.Insert.{add_instance}
use psst.Store.Repository.{is_active, close_instances}
use psst.Store.Instance.{ResumeToken, ClaimInstance, instance_row, authenticate, insert_instance}
use psst.Store.Instance.Ownership.{insert_instance-ok}
use psst.Store.Session.{membership_by_id, squad_by_id}
use psst.Store.Resume.{ResumeAuthority, SessionContext, resume_authority, refused_as}

-- The membership's instances that hold a lease at a time.
abbrev pub is_live_owner : MembershipId → UnixMillis → InstanceRow → Bool
is_live_owner membership now o =
    o.membership_id == membership && is_none o.closed_at && ltb now o.lease_expires_at

module _ (sha256 : List ℕ → List ℕ) where
  -- The parts of `authenticated_resume`.
  abbrev pub successor : MembershipId → ClaimInstance → ClaimInstance
  successor membership new_instance = record new_instance { membership_id = membership }

  abbrev inserted :
      MembershipId → ResumeToken → ClaimInstance → MembershipRecord → Exec SessionContext
  inserted membership token new_instance record_ = squad_by_id record_.squad_id >>= λ squad.
      insert_instance sha256 (successor membership new_instance) token >>= λ r.
      pure (record { membership = record_; squad = squad; instance_record = r })

  abbrev pub take_over : MembershipId → ResumeToken → ClaimInstance → Exec SessionContext
  take_over membership token new_instance =
      modify (close_instances (λ o. o.membership_id == membership) new_instance.now)
      >> (membership_by_id membership >>= inserted membership token new_instance)

  squad_by_id-same : (id : _) → Steps Unmoved (squad_by_id id)
  unfolding squad_by_id
  squad_by_id-same id = search (step_rules, Unmoved-order) depth 8

  membership_by_id-same : (id : MembershipId) → Steps Unmoved (membership_by_id id)
  unfolding membership_by_id
  membership_by_id-same id = search (step_rules, Unmoved-order) depth 8

  inserted-ok :
      (membership : MembershipId) (token : ResumeToken) (c : ClaimInstance) (m : MembershipRecord)
      (db after : Db) (s : SessionContext)
      → inserted membership token c m db ≡ (ok s, after)
      → after
        ≡ add_instance
            (instance_row sha256
              (successor membership c)
              token
              (c.now + as_millis c.lease_policy.lease_duration))
            db
  inserted-ok membership token c m db after s h =
      let q = bind-Read (squad_by_id m.squad_id) _ db after s (squad_by_id-same m.squad_id) h in
      let i =
        bind-Answered (insert_instance sha256 (successor membership c) token)
          (λ r. pure (record { membership = m; squad = q.value; instance_record = r })) db after s
          q.then in
      let (expiry, (_, written)) =
        insert_instance-ok sha256 (successor membership c) token db i.mid i.value i.first in
      let (_, kept) =
        pure-ok (record { membership = m; squad = q.value; instance_record = i.value }) s i.mid
          after i.then in
      kept
      ∙ written
      ∙ ap (λ t. add_instance (instance_row sha256 (successor membership c) token t) db) expiry

  modify-then :
      (f : Db → Db) (k : Exec SessionContext) (db after : Db) (s : SessionContext)
      → (modify f >> k) db ≡ (ok s, after)
      → k (f db) ≡ (ok s, after)
  unfolding ◌>>=◌
  modify-then f k db after s h = h

  abbrev closed_db : MembershipId → UnixMillis → Db → Db
  closed_db membership now db = close_instances (λ o. o.membership_id == membership) now db

  pub take_over-ok :
      (membership : MembershipId) (token : ResumeToken) (c : ClaimInstance) (db after : Db)
      (s : SessionContext)
      → take_over membership token c db ≡ (ok s, after)
      → after
        ≡ add_instance
            (instance_row sha256
              (successor membership c)
              token
              (c.now + as_millis c.lease_policy.lease_duration))
            (closed_db membership c.now db)
  take_over-ok membership token c db after s h =
      let start = closed_db membership c.now db in
      let go =
        modify-then (λ d. closed_db membership c.now d)
          (membership_by_id membership >>= inserted membership token c) db after s h in
      let m =
        bind-Read (membership_by_id membership) (inserted membership token c) start after s
          (membership_by_id-same membership) go in
      inserted-ok membership token c m.value start after s m.then

  abbrev pub unless_live : MembershipId → ResumeToken → ClaimInstance → Bool → Exec SessionContext
  unless_live membership token c live =
      reject_if live RepositoryError.name_in_use >> take_over membership token c

  abbrev pub prior_lives : ResumeAuthority → ClaimInstance → Bool
  prior_lives prior c =
      is_none prior.joined.instance_row.closed_at
      && ltb c.now prior.joined.instance_row.lease_expires_at

  abbrev pub owner_lives : ResumeAuthority → ClaimInstance → Db → Bool
  owner_lives prior c db = exists_row (is_live_owner prior.joined.membership.id c.now) db.instances

  abbrev pub after_prior : ResumeToken → ClaimInstance → ResumeAuthority → Exec SessionContext
  after_prior token c prior =
      reject_if (prior_lives prior c) RepositoryError.name_in_use
      >> (query (owner_lives prior c) >>= unless_live prior.joined.membership.id token c)

  abbrev pub in_squad :
      ResumeToken → ClaimInstance → SquadName → ResumeAuthority → Exec SessionContext
  in_squad token c expected prior =
      reject_if (not (prior.squad.name == expected)) RepositoryError.not_found
      >> (reject_if (not (is_active prior.squad.state)) RepositoryError.squad_archived
          >> after_prior token c prior)

  abbrev pub by_token :
      ResumeToken → ClaimInstance → SquadName → ResumeAuthority → Exec SessionContext
  by_token token c expected prior =
      lift (
        refused_as RepositoryError.not_found
          (authenticate sha256 prior.joined.instance_row.resume_token_hash token))
      >> in_squad token c expected prior

  abbrev pub resume_body :
      InstanceId → ResumeToken → ClaimInstance → SquadName → Exec SessionContext
  resume_body id token c expected = query (resume_authority id) >>= λ found.
      ok_or found RepositoryError.not_found >>= by_token token c expected
