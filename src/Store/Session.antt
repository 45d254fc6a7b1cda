-- ===== src/Store/Session.antt =====
-- crates/psst-store/src/authenticated.rs: the session credential, the identity behind it, and the
-- lookups that the authenticated operations share.
pub mod Authority
pub mod Sends
pub mod Mail
pub mod Delivery
use psst.Prelude.{ℕ, not, ◌||◌, Option, none, some, List, is_some, leb, find_row, ◌==◌}
use psst.Core.Error.{ok, err}
use psst.Core.Time.{UnixMillis}
use psst.Core.Id.{SquadId, MembershipId, InstanceId}
use psst.Core.Value.{SquadName, MemberName}
use psst.Core.State.{AgentMode}
use psst.Store.Error.{SqliteError, RepositoryError, from_sqlite, invalid_stored_data}
use psst.Store.Schema.{
  Db, SquadRecord, MembershipRecord, MembershipRow, InstanceRow, MessageRecord, MessageRow,
}
use psst.Store.Exec.{Exec, Outcome, pure, lift, query, reject_if, ok_or, ◌>>=◌, ◌>>◌}
use psst.Store.Repository.{is_active}
use psst.Store.Instance.{ResumeToken, authenticate}

pub record AuthenticatedSession : Type 0 where
  pub instance_id : InstanceId
  pub resume_token : ResumeToken
  pub now : UnixMillis

pub record Identity : Type 0 where
  pub membership : MembershipId
  pub squad : SquadId
  pub mode : AgentMode
  pub expiry : UnixMillis
  pub last_seen : UnixMillis
  pub created_at : UnixMillis

pub record MessageView : Type 0 where
  pub message : MessageRecord
  pub squad : SquadName
  pub sender : MemberName
  pub recipient : MemberName
  pub acknowledged_at : Option UnixMillis

unfoldable pub membership_row : MembershipId → Db → Option MembershipRow
membership_row id db = find_row (λ m. m.id == id) db.memberships

unfoldable pub squad_row : SquadId → Db → Option SquadRecord
squad_row id db = find_row (λ s. s.id == id) db.squads

unfoldable pub squad_by_name : SquadName → Exec SquadRecord
unfolding ◌>>=◌
squad_by_name name = do
  found ← query (λ db. find_row (λ s. s.name == name) db.squads)
  ok_or found RepositoryError.not_found

unfoldable pub squad_by_id : SquadId → Exec SquadRecord
unfolding squad_row ◌>>=◌
squad_by_id id = do found ← query (squad_row id); ok_or found RepositoryError.not_found

unfoldable pub membership_by_id : MembershipId → Exec MembershipRecord
unfolding membership_row ◌>>=◌
membership_by_id id = do
  found ← query (membership_row id)
  row ← ok_or found RepositoryError.not_found
  pure row.membership

abbrev then_some {ℓ κ} : {A : Type ℓ} {B : Type κ} → Option A → (A → Option B) → Option B
then_some none f = none
then_some (some a) f = f a

-- `instances i JOIN memberships m ON m.id = i.membership_id WHERE i.id = ?1`.
pub record Joined : Type 0 where
  pub instance_row : InstanceRow
  pub membership : MembershipRow

abbrev with_membership : Db → InstanceRow → Option Joined
with_membership db i = elim (find_row (λ m. m.id == i.membership_id) db.memberships) [
  | none ↦ none
  | some m ↦ some (record { instance_row = i; membership = m })
]

unfoldable pub joined_instance : InstanceId → Db → Option Joined
joined_instance id db = then_some (find_row (λ i. i.id == id) db.instances) (with_membership db)

-- The first statement of `message_view_on`: the row of the message and the names that it refers to.
abbrev view_of :
    MessageRecord
    → Option MessageRow
    → (SquadId → Option SquadRecord)
    → (MembershipId → Option MembershipRow)
    → Outcome MessageView
view_of message found squads members = elim found [
  | none ↦ err invalid_stored_data
  | some m ↦ elim (squads m.semantics.squad) [
    | none ↦ err invalid_stored_data
    | some s ↦ elim (members m.semantics.sender) [
      | none ↦ err invalid_stored_data
      | some sm ↦ elim (members m.semantics.recipient) [
        | none ↦ err invalid_stored_data
        | some rm ↦ ok (record {
          message = message;
          squad = s.name;
          sender = sm.name;
          recipient = rm.name;
          acknowledged_at = m.acknowledged_at;
        })
      ]
    ]
  ]
]

unfoldable pub message_view_on : Db → MessageRecord → Outcome MessageView
unfolding squad_row membership_row
message_view_on db message =
    view_of message (find_row (λ m. m.id == message.id) db.messages) (λ id. squad_row id db)
      (λ id. membership_row id db)

module _ (sha256 : List ℕ → List ℕ) where
  -- `authenticate(…).map_err(|_| NotFound)`.
  abbrev concealed : Outcome (Unit {0}) → Outcome (Unit {0})
  concealed (ok u) = ok u
  concealed (err _) = err RepositoryError.not_found

  abbrev pub identity_of : Joined → Identity
  identity_of j = record {
    membership = j.membership.id;
    squad = j.membership.squad_id;
    mode = j.instance_row.mode;
    expiry = j.instance_row.lease_expires_at;
    last_seen = j.instance_row.last_seen_at;
    created_at = j.instance_row.created_at;
  }

  unfoldable pub authenticate_historical : AuthenticatedSession → Exec Identity
  unfolding joined_instance authenticate ◌>>=◌
  authenticate_historical session = do
    found ← query (joined_instance session.instance_id)
    row ← ok_or found RepositoryError.not_found
    lift (concealed (authenticate sha256 row.instance_row.resume_token_hash session.resume_token))
    pure (identity_of row)

  -- The second query of `authorize_current`, which joins the squad too.
  abbrev joined_squad : Db → Joined → Option SquadRecord
  joined_squad db j = find_row (λ s. s.id == j.membership.squad_id) db.squads

  unfoldable pub check_current : Joined → SquadRecord → Exec (Unit {0})
  unfolding ◌>>=◌
  check_current j s = do
    reject_if (not (is_active s.state)) RepositoryError.squad_archived
    reject_if (is_some j.instance_row.closed_at || is_some j.membership.left_at)
        RepositoryError.not_member

  abbrev no_rows : RepositoryError
  no_rows = from_sqlite SqliteError.query_returned_no_rows

  unfoldable pub authorize_current : AuthenticatedSession → Exec Identity
  unfolding authenticate_historical check_current ◌>>=◌
  authorize_current session = do
    identity ← authenticate_historical session
    reject_if (leb identity.expiry session.now) RepositoryError.lease_expired
    found ← query (joined_instance session.instance_id)
    row ← ok_or found no_rows
    squad ← query (λ db. joined_squad db row)
    s ← ok_or squad no_rows
    check_current row s
    pure identity
