-- ===== src/Store/Insert.antt =====
-- The INSERT statements of crates/psst-store/src and the constraints of crates/psst-store/migrations
-- that they meet. SQLite checks the index of an ON CONFLICT clause before the other constraints.
pub mod Cases
use psst.Prelude.{
  ℕ, suc, Bool, true, false, not, ◌&&◌, ◌||◌, Option, none, some, [], ◌∷◌, ◌++◌, exists_row, ◌==◌,
  if◌then◌else◌,
}
use psst.Core.Error.{ok, err}
use psst.Core.Id.{SquadId, MembershipId, AgentId, MessageId}
use psst.Store.Error.{SqliteError, RepositoryError, from_sqlite}
use psst.Store.Schema.{Db, SquadRecord, AgentRow, MembershipRow, InstanceRow, MessageRow}
use psst.Store.Clash
use psst.Store.Exec.{Exec}

abbrev pub constraint_error : RepositoryError
constraint_error = from_sqlite SqliteError.constraint_violation

-- A statement that violates a constraint changes nothing.
abbrev pub checked : Bool → (Db → Db) → Exec (Unit {0})
checked violated write db = if violated then (err constraint_error, db) else (ok tt, write db)

abbrev pub add_squad : SquadRecord → Db → Db
add_squad s db = record db { squads = db.squads ++ s ∷ [] }

abbrev pub add_agent : AgentRow → Db → Db
add_agent a db = record db { agents = db.agents ++ a ∷ [] }

abbrev pub add_membership : MembershipRow → Db → Db
add_membership m db = record db { memberships = db.memberships ++ m ∷ [] }

abbrev pub add_instance : InstanceRow → Db → Db
add_instance i db = record db { instances = db.instances ++ i ∷ [] }

abbrev pub numbered : MessageRow → ℕ → MessageRow
numbered m n = record m { message = record m.message { sequence = n } }

-- The rowid is one more than the last that was given.
abbrev pub add_message : MessageRow → Db → Db
add_message m db = record db {
  messages = db.messages ++ numbered m (suc db.last_sequence) ∷ [];
  last_sequence = suc db.last_sequence;
}

-- `REFERENCES squads(id)`, and so on.
abbrev pub has_squad : SquadId → Db → Bool
has_squad id db = exists_row (λ s. s.id == id) db.squads

abbrev pub has_agent : AgentId → Db → Bool
has_agent id db = exists_row (λ a. a.id == id) db.agents

abbrev pub has_membership : MembershipId → Db → Bool
has_membership id db = exists_row (λ m. m.id == id) db.memberships

abbrev pub has_membership_in : MembershipId → SquadId → Db → Bool
has_membership_in id squad db = exists_row (λ m. m.id == id && m.squad_id == squad) db.memberships

abbrev pub has_message_in : MessageId → SquadId → Db → Bool
has_message_in id squad db = exists_row (λ m. m.id == id && m.semantics.squad == squad) db.messages

abbrev pub reply_is_known : Option MessageId → SquadId → Db → Bool
reply_is_known none squad db = true
reply_is_known (some id) squad db = has_message_in id squad db

abbrev pub squad_violates : SquadRecord → Db → Bool
squad_violates s db =
    exists_row (Clash.squad_id s) db.squads || exists_row (Clash.squad_name s) db.squads

abbrev pub membership_violates : MembershipRow → Db → Bool
membership_violates m db =
    exists_row (Clash.membership_id m) db.memberships
    || not (has_squad m.squad_id db && has_agent m.agent_id db)

abbrev pub instance_violates : InstanceRow → Db → Bool
instance_violates i db =
    exists_row (Clash.instance_id i) db.instances
    || (exists_row (Clash.unclosed_owner i) db.instances || not (has_membership i.membership_id db))

abbrev pub message_violates : MessageRow → Db → Bool
message_violates m db =
    exists_row (Clash.message_id m) db.messages
    || (exists_row (Clash.dedupe m) db.messages
        || not (
            has_membership_in m.semantics.sender m.semantics.squad db
            && (has_membership_in m.semantics.recipient m.semantics.squad db
                && reply_is_known m.semantics.reply_to m.semantics.squad db)))

-- `INSERT INTO squads`.
unfoldable pub insert_squad : SquadRecord → Exec (Unit {0})
insert_squad s db = checked (squad_violates s db) (add_squad s) db

-- `ON CONFLICT … DO NOTHING`: whether a row was written.
abbrev pub checked_if_new : Bool → Bool → (Db → Db) → Exec Bool
checked_if_new conflict violated write db =
    if conflict
    then (ok false, db)
    else if violated
    then (err constraint_error, db)
    else (ok true, write db)

-- `INSERT INTO squads … ON CONFLICT(name) DO NOTHING`.
unfoldable pub insert_squad_if_new : SquadRecord → Exec Bool
insert_squad_if_new s db =
    checked_if_new (exists_row (Clash.squad_name s) db.squads)
      (exists_row (Clash.squad_id s) db.squads) (add_squad s) db

-- `INSERT INTO agents`.
unfoldable pub insert_agent : AgentRow → Exec (Unit {0})
insert_agent a db = checked (exists_row (Clash.agent_id a) db.agents) (add_agent a) db

-- `INSERT INTO memberships … ON CONFLICT(squad_id, normalized_name) WHERE left_at IS NULL DO NOTHING`.
unfoldable pub insert_membership_if_new : MembershipRow → Exec Bool
insert_membership_if_new m db =
    checked_if_new (exists_row (Clash.active_name m) db.memberships) (membership_violates m db)
      (add_membership m) db

-- `INSERT INTO instances`.
unfoldable pub insert_instance_row : InstanceRow → Exec (Unit {0})
insert_instance_row i db = checked (instance_violates i db) (add_instance i) db

-- `INSERT INTO messages`.
unfoldable pub insert_message : MessageRow → Exec (Unit {0})
insert_message m db = checked (message_violates m db) (add_message m) db
