-- ===== src/Store/Resume/Succession.antt =====
-- Who may resume a membership in crates/psst-store/src/authenticated.rs, and what becomes of the
-- instances before.
use psst.Prelude.{
  ℕ, ◌≡◌, ◌+◌, Bool, true, false, not, none, some, List, [], ◌∷◌, ◌++◌, ◌∙◌, ◌&&◌, refl, map,
  is_none, find_row, if◌then◌else◌, arith, exists_row, ◌==◌, eq_iff,
}
use psst.Prelude.Texts.{codes_eq_iff}
use psst.Core.Error.{ok}
use psst.Core.Time.{UnixMillis, as_millis}
use psst.Core.Id.{InstanceId, MembershipId}
use psst.Core.Value.{SquadName}
use psst.Store.Error.{RepositoryError}
use psst.Store.Schema.{Db, InstanceRow}
use psst.Store.Exec.{Io, transaction, query, lift, ok_or, ◌>>=◌}
use psst.Store.Exec.Atomic.{transaction-ok, Unmoved-order}
use psst.Store.Exec.Steps.{Steps-lift, Steps-ok_or}
use psst.Store.Exec.Inversion.{bind-Read, guard-ok, lift-ok, query-then, ok_or-ok}
use psst.Store.Insert.{add_instance}
use psst.Store.Repository.{is_active, close_instances}
use psst.Store.Instance.{
  ResumeToken, ClaimInstance, instance_row, token_hash, authenticate, validate_observation,
  validate_client,
}
use psst.Store.Session.{joined_instance}
use psst.Store.Resume.{
  ResumeAuthority, SessionContext, resume_authority, refused_as, authenticated_resume,
}
use psst.Store.Resume.Parts.{
  is_live_owner, take_over, take_over-ok, unless_live, prior_lives, owner_lives, after_prior,
  in_squad, by_token, resume_body,
}

module _ (sha256 : List ℕ → List ℕ) where
  -- The membership's unclosed instances, closed at a time; the others are left as they are.
  abbrev closed_for : MembershipId → UnixMillis → InstanceRow → InstanceRow
  closed_for membership now i =
      if i.membership_id == membership && is_none i.closed_at
      then record i { closed_at = some now }
      else i

  -- The instance that takes over, with the token of the one before.
  abbrev heir : MembershipId → ResumeToken → ClaimInstance → InstanceRow
  heir membership token c = record {
    id = c.id;
    membership_id = membership;
    mode = c.mode;
    client_kind = c.client_kind;
    hostname = c.hostname;
    resume_token_hash = token_hash sha256 token;
    availability = c.availability;
    availability_source = c.availability_source;
    availability_observed_at = c.now;
    lease_expires_at = c.now + as_millis c.lease_policy.lease_duration;
    last_seen_at = c.now;
    created_at = c.now;
    closed_at = none;
  }

  -- What a resumption that succeeds has found, and what it has written.
  pub record Succession (id : InstanceId) (token : ResumeToken) (c : ClaimInstance)
      (expected : SquadName) (db after : Db) : Type 0 where
    pub prior : ResumeAuthority
    pub own : find_row (λ i. i.id == id) db.instances ≡ some prior.joined.instance_row
    pub member :
        find_row (λ m. m.id == prior.joined.instance_row.membership_id) db.memberships
        ≡ some prior.joined.membership
    pub staying : prior.joined.membership.left_at ≡ none
    pub home : find_row (λ s. s.id == prior.joined.membership.squad_id) db.squads ≡ some prior.squad
    pub credential : prior.joined.instance_row.resume_token_hash ≡ token_hash sha256 token
    pub squad : prior.squad.name ≡ expected
    pub active : is_active prior.squad.state ≡ true
    pub no_owner : exists_row (is_live_owner prior.joined.membership.id c.now) db.instances ≡ false
    pub written : after ≡ record db {
      instances =
          map (closed_for prior.joined.membership.id c.now) db.instances
          ++ heir prior.joined.membership.id token c ∷ [];
    }

  written_rows :
      (membership : MembershipId) (token : ResumeToken) (c : ClaimInstance) (db : Db)
      → add_instance
          (instance_row sha256
            (record c { membership_id = membership })
            token
            (c.now + as_millis c.lease_policy.lease_duration))
          (close_instances (λ o. o.membership_id == membership) c.now db)
        ≡ record db {
          instances =
              map (closed_for membership c.now) db.instances ++ heir membership token c ∷ [];
        }
  unfolding close_instances
  written_rows membership token c db = refl

  found_prior :
      (id : InstanceId) (db : Db) (prior : ResumeAuthority)
      → resume_authority id db ≡ some prior
      → (find_row (λ i. i.id == id) db.instances ≡ some prior.joined.instance_row)
        × ((find_row (λ m. m.id == prior.joined.instance_row.membership_id) db.memberships
              ≡ some prior.joined.membership)
            × ((prior.joined.membership.left_at ≡ none)
                × (find_row (λ s. s.id == prior.joined.membership.squad_id) db.squads
                    ≡ some prior.squad)))
  unfolding resume_authority joined_instance
  found_prior id db prior h = ground arith

  matching_token :
      (stored : List ℕ) (token : ResumeToken) (u : Unit {0})
      → refused_as RepositoryError.not_found (authenticate sha256 stored token) ≡ ok u
      → stored ≡ token_hash sha256 token
  unfolding authenticate
  matching_token stored token u h = ground (arith, codes_eq_iff stored (token_hash sha256 token))

  same_name : (a b : SquadName) → not (a == b) ≡ false → a ≡ b
  same_name a b h = ground (arith, eq_iff a b)

  not-false : (b : Bool) → not b ≡ false → b ≡ true
  not-false b h = ground arith

  resume_body-Succession :
      (id : InstanceId) (token : ResumeToken) (c : ClaimInstance) (expected : SquadName)
      (db after : Db) (s : SessionContext)
      → resume_body sha256 id token c expected db ≡ (ok s, after)
      → Succession id token c expected db after
  resume_body-Succession id token c expected db after s h =
      let q =
        query-then (resume_authority id)
          (λ found. ok_or found RepositoryError.not_found >>= by_token sha256 token c expected) db
          after s h in
      let p =
        bind-Read (ok_or (resume_authority id db) RepositoryError.not_found)
          (by_token sha256 token c expected) db after s (Steps-ok_or Unmoved-order _ _) q in
      let prior = p.value in
      let (known, _) =
        ok_or-ok (resume_authority id db) RepositoryError.not_found db db prior p.first in
      let (own, (member, (staying, home))) = found_prior id db prior known in
      let answer =
        refused_as RepositoryError.not_found
          (authenticate sha256 prior.joined.instance_row.resume_token_hash token) in
      let t =
        bind-Read (lift answer) (λ _. in_squad sha256 token c expected prior) db after s
          (Steps-lift Unmoved-order answer) p.then in
      let (matched, _) = lift-ok answer db db t.value t.first in
      let (named, g) =
        guard-ok (not (prior.squad.name == expected)) RepositoryError.not_found _ db after s
          t.then in
      let (live, g2) =
        guard-ok (not (is_active prior.squad.state)) RepositoryError.squad_archived
          (after_prior sha256 token c prior) db after s g in
      let (_, g3) =
        guard-ok (prior_lives sha256 prior c) RepositoryError.name_in_use
          (query (owner_lives sha256 prior c)
            >>= unless_live sha256 prior.joined.membership.id token c)
          db after s g2 in
      let (unowned, g4) =
        guard-ok (owner_lives sha256 prior c db) RepositoryError.name_in_use
          (take_over sha256 prior.joined.membership.id token c) db after s
          (query-then (owner_lives sha256 prior c)
            (unless_live sha256 prior.joined.membership.id token c) db after s g3) in
      record {
        prior = prior;
        own = own;
        member = member;
        staying = staying;
        home = home;
        credential =
            matching_token prior.joined.instance_row.resume_token_hash token t.value matched;
        squad = same_name prior.squad.name expected named;
        active = not-false (is_active prior.squad.state) live;
        no_owner = unowned;
        written =
            take_over-ok sha256 prior.joined.membership.id token c db after s g4
            ∙ written_rows prior.joined.membership.id token c db;
      }

  -- A resumption that succeeds takes over from no live owner: the prior instance is found, its member
  -- has not left, the token is the one whose digest it stores, the squad is the expected one and
  -- active, and no unclosed instance of the membership held a lease. It closes, at its time, the
  -- unclosed instances of the membership and no others, and adds one instance of it, with the digest
  -- of the same token, that is last seen at that time and runs a lease duration from then. Nothing
  -- else of the database changes.
  pub authenticated_resume-Succession :
      (io : Io) (id : InstanceId) (token : ResumeToken) (c : ClaimInstance) (expected : SquadName)
      (db after : Db) (s : SessionContext)
      → authenticated_resume sha256 io id token c expected db ≡ (ok s, after)
      → Succession id token c expected db after
  unfolding authenticated_resume
  authenticated_resume-Succession io id token c expected db after s h =
      let a =
        bind-Read (lift (validate_client c.client_kind c.hostname)) _ db after s
          (Steps-lift Unmoved-order _) h in
      let b =
        bind-Read (lift (validate_observation c.availability c.availability_source c.now))
          (λ _. transaction io (resume_body sha256 id token c expected)) db after s
          (Steps-lift Unmoved-order _) a.then in
      resume_body-Succession id token c expected db after s
        (transaction-ok io (resume_body sha256 id token c expected) db after s b.then)
