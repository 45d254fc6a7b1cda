-- ===== src/Store/Repository.antt =====
-- crates/psst-store/src/repository.rs: squads, memberships and the roster.
use Prim.Native.String.{compare}
use text.Mathlib.Text.{is_le}
use psst.Prelude.{
  Bool, true, false, not, ◌&&◌, Option, none, some, List, is_none, is_some_and, find_row,
  exists_row, update_rows, order_by, ◌==◌, if◌then◌else◌,
}
use psst.Core.Error.{ok}
use psst.Core.Time.{UnixMillis}
use psst.Core.Id.{SquadId, AgentId, MembershipId}
use psst.Core.Value.{SquadName, MemberName, Mission, Role}
use psst.Core.State.{SquadState}
use psst.Store.Error.{RepositoryError}
use psst.Store.Schema.{Db, SquadRecord, MembershipRecord, MembershipRow, InstanceRow}
use psst.Store.Exec.{
  Exec, Io, pure, fail, query, modify, reject_if, ok_or, transaction, ◌>>=◌, ◌>>◌,
}
use psst.Store.Insert.{insert_squad, insert_squad_if_new, insert_agent, insert_membership_if_new}

pub record CreateSquad : Type 0 where
  pub id : SquadId
  pub name : SquadName
  pub mission : Mission
  pub created_at : UnixMillis

pub record JoinMembership : Type 0 where
  pub squad_name : SquadName
  pub mission_if_missing : Option Mission
  pub squad_id_if_missing : SquadId
  pub agent_id : AgentId
  pub membership_id : MembershipId
  pub member_name : MemberName
  pub role : Role
  pub joined_at : UnixMillis

abbrev pub new_squad : SquadId → SquadName → Mission → UnixMillis → SquadRecord
new_squad i n m t = record {
  id = i;
  name = n;
  mission = m;
  state = SquadState.active;
  created_at = t;
  archived_at = none;
}

unfoldable pub create_squad : Io → CreateSquad → Exec SquadRecord
unfolding transaction insert_squad_if_new
create_squad io request = transaction io do
  let created = new_squad request.id request.name request.mission request.created_at
  changed ← insert_squad_if_new created
  reject_if (not changed) RepositoryError.name_in_use
  pure created

abbrev name_le : SquadRecord → SquadRecord → Bool
name_le a b = is_le (compare a.name b.name)

unfoldable pub list_squads : Exec (List SquadRecord)
unfolding query
list_squads = query (λ db. order_by name_le db.squads)

unfoldable pub describe_squad : SquadName → Exec SquadRecord
unfolding ◌>>=◌
describe_squad name = do
  found ← query (λ db. find_row (λ s. s.name == name) db.squads)
  ok_or found RepositoryError.not_found

abbrev pub is_active : SquadState → Bool
is_active SquadState.active = true
is_active SquadState.archived = false

abbrev pub archived_row : UnixMillis → SquadRecord → SquadRecord
archived_row at s = record s { state = SquadState.archived; archived_at = some at }

-- `UPDATE squads SET state = 'archived' …`: whether a row was changed.
unfoldable pub update_archived : (SquadRecord → Bool) → UnixMillis → Exec Bool
update_archived test at db = (
  ok (exists_row (λ s. test s && is_active s.state) db.squads),
  record db { squads = update_rows (λ s. test s && is_active s.state) (archived_row at) db.squads },
)

unfoldable pub archive_result : SquadName → Bool → Exec (Unit {0})
unfolding describe_squad ◌>>=◌
archive_result name true = pure tt
archive_result name false = do describe_squad name; fail RepositoryError.squad_archived

-- The UPDATE is a transaction of its own, and the lookup that follows another.
unfoldable pub archive_squad : Io → SquadName → UnixMillis → Exec (Unit {0})
unfolding transaction update_archived archive_result
archive_squad io name archived_at = do
  changed ← transaction io (update_archived (λ s. s.name == name) archived_at)
  archive_result name changed

pub data JoinFault : Type 0 where
  squad agent membership : JoinFault

abbrev fault_eq : JoinFault → JoinFault → Bool
fault_eq squad squad = true
fault_eq agent agent = true
fault_eq membership membership = true
fault_eq _ _ = false

unfoldable pub inject : Option JoinFault → JoinFault → Exec (Unit {0})
unfolding reject_if
inject actual point =
    reject_if (is_some_and actual (λ f. fault_eq f point)) RepositoryError.injected_failure

unfoldable pub existing_or_new : JoinMembership → Option SquadRecord → Exec SquadId
unfolding insert_squad ◌>>=◌
existing_or_new request (some s) =
    if is_active s.state then pure s.id else fail RepositoryError.squad_archived
existing_or_new request none = do
  mission ← ok_or request.mission_if_missing RepositoryError.not_found
  insert_squad (new_squad request.squad_id_if_missing request.squad_name mission request.joined_at)
  pure request.squad_id_if_missing

-- `find_or_create_squad`, which authenticated.rs repeats.
unfoldable pub find_or_create_squad : JoinMembership → Exec SquadId
unfolding existing_or_new ◌>>=◌
find_or_create_squad request = do
  existing ← query (λ db. find_row (λ s. s.name == request.squad_name) db.squads)
  existing_or_new request existing

abbrev pub new_membership : JoinMembership → SquadId → MembershipRecord
new_membership request squad_id = record {
  id = request.membership_id;
  squad_id = squad_id;
  agent_id = request.agent_id;
  name = request.member_name;
  role = request.role;
  joined_at = request.joined_at;
  left_at = none;
}

abbrev pub new_member_row : JoinMembership → SquadId → MembershipRow
new_member_row request squad_id = record {
  membership = new_membership request squad_id;
  normalized_name = request.member_name;
}

unfoldable pub join_with_fault : Io → JoinMembership → Option JoinFault → Exec MembershipRecord
unfolding transaction find_or_create_squad inject insert_agent insert_membership_if_new
join_with_fault io request fault = transaction io do
  squad_id ← find_or_create_squad request
  inject fault squad
  insert_agent (record { id = request.agent_id; created_at = request.joined_at })
  inject fault agent
  changed ← insert_membership_if_new (new_member_row request squad_id)
  reject_if (not changed) RepositoryError.name_in_use
  inject fault membership
  pure (new_membership request squad_id)

unfoldable pub join : Io → JoinMembership → Exec MembershipRecord
unfolding join_with_fault
join io request = join_with_fault io request none

-- `SELECT 1 FROM memberships WHERE id = ?1 AND squad_id = ?2 AND left_at IS NULL`.
unfoldable pub is_active_member : MembershipId → SquadId → Db → Bool
is_active_member id squad_id db =
    exists_row (λ m. m.id == id && m.squad_id == squad_id && is_none m.left_at) db.memberships

-- `UPDATE instances SET closed_at = ?2 WHERE … AND closed_at IS NULL`.
unfoldable pub close_instances : (InstanceRow → Bool) → UnixMillis → Db → Db
close_instances test at db = record db {
  instances =
      update_rows (λ i. test i && is_none i.closed_at) (λ i. record i { closed_at = some at })
        db.instances;
}

abbrev pub left_row : UnixMillis → MembershipRow → MembershipRow
left_row at m = record m { membership = record m.membership { left_at = some at } }

-- `UPDATE memberships SET left_at = ?2 WHERE id = ?1 AND left_at IS NULL`.
unfoldable pub mark_left : MembershipId → UnixMillis → Db → Db
mark_left id at db = record db {
  memberships = update_rows (λ m. m.id == id && is_none m.left_at) (left_row at) db.memberships;
}

unfoldable pub leave_with_fault : Io → SquadId → MembershipId → UnixMillis → Bool → Exec (Unit {0})
unfolding transaction is_active_member close_instances mark_left
leave_with_fault io squad_id membership_id left_at fail_after_instance_close = transaction io do
  active ← query (is_active_member membership_id squad_id)
  reject_if (not active) RepositoryError.not_member
  modify (close_instances (λ i. i.membership_id == membership_id) left_at)
  reject_if fail_after_instance_close RepositoryError.injected_failure
  modify (mark_left membership_id left_at)

unfoldable pub leave : Io → SquadId → MembershipId → UnixMillis → Exec (Unit {0})
unfolding leave_with_fault
leave io squad_id membership_id left_at = leave_with_fault io squad_id membership_id left_at false
