-- ===== src/Store/Session/Authority.antt =====
-- What a session credential gives access to in crates/psst-store/src/authenticated.rs.
use psst.Prelude.{
  ℕ, ◌≡◌, ◌↔◌, ◌<◌, true, none, some, List, find_row, arith, ◌==◌, Option-cases, inl, inr, subst,
  sym,
}
use psst.Prelude.Texts.{codes_eq_iff}
use psst.Core.Error.{ok, err}
use psst.Store.Error.{RepositoryError, not_found}
use psst.Store.Schema.{Db, SquadRecord}
use psst.Store.Repository.{is_active}
use psst.Store.Instance.{token_hash}
use psst.Store.Session.{
  AuthenticatedSession, Identity, Joined, joined_instance, identity_of, authenticate_historical,
  authorize_current,
}

module _ (sha256 : List ℕ → List ℕ) where
  -- The instance that the credential names, whose stored digest is the token's.
  pub record Credential (session : AuthenticatedSession) (db : Db) (identity : Identity)
      : Type 0 where
    pub joined : Joined
    pub known : joined_instance session.instance_id db ≡ some joined
    pub token : joined.instance_row.resume_token_hash ≡ token_hash sha256 session.resume_token
    pub shown : identity ≡ identity_of sha256 joined

  -- A credential whose lease runs, at an unclosed instance of an active member of an active squad.
  pub record Authority (session : AuthenticatedSession) (db : Db) (identity : Identity)
      : Type 0 where
    pub credential : Credential session db identity
    pub running : session.now < identity.expiry
    pub unclosed : credential.joined.instance_row.closed_at ≡ none
    pub member : credential.joined.membership.left_at ≡ none
    pub squad : SquadRecord
    pub found : find_row (λ s. s.id == identity.squad) db.squads ≡ some squad
    pub active : is_active squad.state ≡ true

  unknown_instance :
      (session : AuthenticatedSession) (db after : Db) (identity : Identity)
      → joined_instance session.instance_id db ≡ none
      → ¬ (authenticate_historical sha256 session db ≡ (ok identity, after))
  unfolding authenticate_historical
  unknown_instance session db after identity e h = ground arith

  known_instance :
      (session : AuthenticatedSession) (db after : Db) (identity : Identity) (j : Joined)
      → joined_instance session.instance_id db ≡ some j
      → authenticate_historical sha256 session db ≡ (ok identity, after)
      → ((j.instance_row.resume_token_hash ≡ token_hash sha256 session.resume_token)
          × (identity ≡ identity_of sha256 j))
        × (after ≡ db)
  unfolding authenticate_historical
  known_instance session db after identity j e h = ground (
    arith,
    codes_eq_iff j.instance_row.resume_token_hash (token_hash sha256 session.resume_token),
  )

  pub authenticate_historical-Credential :
      (session : AuthenticatedSession) (db after : Db) (identity : Identity)
      → authenticate_historical sha256 session db ≡ (ok identity, after)
      → Credential session db identity
  authenticate_historical-Credential session db after identity h =
      elim (Option-cases (joined_instance session.instance_id db)) [
        | inl e ↦ absurd (unknown_instance session db after identity e h)
        | inr (j, e) ↦
            let ((token, shown), _) = known_instance session db after identity j e h in
            record { joined = j; known = e; token = token; shown = shown }
      ]

  pub Credential-authenticate_historical :
      (session : AuthenticatedSession) (db : Db) (identity : Identity)
      → Credential session db identity
      → authenticate_historical sha256 session db ≡ (ok identity, db)
  unfolding authenticate_historical
  Credential-authenticate_historical session db identity c = ground (
    arith,
    codes_eq_iff c.joined.instance_row.resume_token_hash (token_hash sha256 session.resume_token),
  )

  pub Authority-authorize_current :
      (session : AuthenticatedSession) (db : Db) (identity : Identity)
      → Authority session db identity
      → authorize_current sha256 session db ≡ (ok identity, db)
  unfolding authorize_current
  Authority-authorize_current session db identity a =
      let c = a.credential in
      let known = c.known in
      let shown = c.shown in
      let h = Credential-authenticate_historical session db identity c in
      let found : find_row (λ s. s.id == c.joined.membership.squad_id) db.squads ≡ some a.squad =
        subst (λ (i : Identity). find_row (λ s. s.id == i.squad) db.squads ≡ some a.squad) shown
          a.found in
      ground arith

  authorized-historical :
      (session : AuthenticatedSession) (db after : Db) (identity : Identity)
      → authorize_current sha256 session db ≡ (ok identity, after)
      → (authenticate_historical sha256 session db ≡ (ok identity, db)) × (after ≡ db)
  unfolding authorize_current authenticate_historical
  authorized-historical session db after identity h = ground arith

  authorized-checks :
      (session : AuthenticatedSession) (db after : Db) (identity : Identity) (j : Joined)
      → joined_instance session.instance_id db ≡ some j
      → authorize_current sha256 session db ≡ (ok identity, after)
      → (session.now < identity.expiry)
        × ((j.instance_row.closed_at ≡ none) × (j.membership.left_at ≡ none))
  unfolding authorize_current authenticate_historical
  authorized-checks session db after identity j e h = ground arith

  no_squad :
      (session : AuthenticatedSession) (db after : Db) (identity : Identity) (j : Joined)
      → joined_instance session.instance_id db ≡ some j
      → find_row (λ s. s.id == j.membership.squad_id) db.squads ≡ none
      → ¬ (authorize_current sha256 session db ≡ (ok identity, after))
  unfolding authorize_current authenticate_historical
  no_squad session db after identity j e n h = ground arith

  active_squad :
      (session : AuthenticatedSession) (db after : Db) (identity : Identity) (j : Joined)
      (s : SquadRecord)
      → joined_instance session.instance_id db ≡ some j
      → find_row (λ s. s.id == j.membership.squad_id) db.squads ≡ some s
      → authorize_current sha256 session db ≡ (ok identity, after)
      → is_active s.state ≡ true
  unfolding authorize_current authenticate_historical
  active_squad session db after identity j s e n h = ground arith

  pub authorize_current-Authority :
      (session : AuthenticatedSession) (db after : Db) (identity : Identity)
      → authorize_current sha256 session db ≡ (ok identity, after)
      → Authority session db identity
  authorize_current-Authority session db after identity h =
      let (historical, _) = authorized-historical session db after identity h in
      let c = authenticate_historical-Credential session db db identity historical in
      let (running, (unclosed, member)) =
        authorized-checks session db after identity c.joined c.known h in
      elim (Option-cases (find_row (λ s. s.id == c.joined.membership.squad_id) db.squads)) [
        | inl e ↦ absurd (no_squad session db after identity c.joined c.known e h)
        | inr (s, e) ↦ record {
          credential = c;
          running = running;
          unclosed = unclosed;
          member = member;
          squad = s;
          found =
              subst (λ (i : Identity). find_row (λ s. s.id == i.squad) db.squads ≡ some s)
                (sym c.shown) e;
          active = active_squad session db after identity c.joined s c.known e h;
        }
      ]

  -- The credential that a mutating operation asks for is accepted exactly if it names a known instance
  -- by the token whose digest is stored, the lease runs, the instance is not closed, its member has
  -- not left, and the squad is active; the identity is then that of the stored rows.
  pub authorize_current_iff :
      (session : AuthenticatedSession) (db : Db) (identity : Identity)
      → (authorize_current sha256 session db ≡ (ok identity, db)) ↔ Authority session db identity
  authorize_current_iff session db identity = (
    authorize_current-Authority session db db identity,
    Authority-authorize_current session db identity,
  )

  -- A credential that is refused is refused with `not_found` alone, whether the instance is unknown,
  -- its membership is missing, or the token is another one, so an answer tells nothing of the three.
  pub authenticate_historical-conceals :
      (session : AuthenticatedSession) (db : Db) (e : RepositoryError)
      → (authenticate_historical sha256 session db).0 ≡ err e
      → e ≡ not_found
  unfolding authenticate_historical
  authenticate_historical-conceals session db e h = ground arith
