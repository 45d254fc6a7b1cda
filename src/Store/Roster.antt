-- ===== src/Store/Roster.antt =====
-- The roster of crates/psst-store/src/repository.rs: memberships and their lease-derived presence.
use Prim.Native.String.{compare}
use text.Mathlib.Text.{is_le, is_lt}
use psst.Prelude.{
  Bool, false, ◌&&◌, ◌||◌, Option, none, some, List, [], ◌∷◌, is_none, ltb, eqb, select_rows,
  order_by, first_by, ◌==◌, if◌then◌else◌,
}
use psst.Core.Error.{Result, ok, err, DomainError}
use psst.Core.Time.{UnixMillis}
use psst.Core.Id.{SquadId, MembershipId}
use psst.Core.Value.{SquadName}
use psst.Core.State.{AgentMode, Availability, AvailabilitySource, AvailabilityObservation, observe}
use psst.Store.Error.{SqliteError, internal}
use psst.Store.Schema.{Db, MembershipRecord, MembershipRow, InstanceRow}
use psst.Store.Exec.{Exec, Outcome, lift, query, ◌>>=◌}
use psst.Store.Repository.{describe_squad}

pub data TransportPresence : Type 0 where
  online offline : TransportPresence

pub record RosterMember : Type 0 where
  pub membership : MembershipRecord
  pub presence : TransportPresence
  pub mode : Option AgentMode
  pub availability : AvailabilityObservation
  pub last_seen_at : Option UnixMillis

abbrev newest_first : InstanceRow → InstanceRow → Bool
newest_first a b =
    ltb b.created_at a.created_at || eqb a.created_at b.created_at && is_lt (compare b.id a.id)

-- `… ORDER BY created_at DESC, id DESC LIMIT 1`.
unfoldable pub latest_instance : MembershipId → Db → Option InstanceRow
latest_instance id db =
    first_by newest_first (select_rows (λ i. i.membership_id == id) db.instances)

abbrev joined_le : MembershipRow → MembershipRow → Bool
joined_le a b =
    ltb a.joined_at b.joined_at || eqb a.joined_at b.joined_at && is_le (compare a.id b.id)

-- Whether the member's latest instance holds a live lease.
unfoldable pub is_online : MembershipRecord → Option InstanceRow → UnixMillis → Bool
is_online m none now = false
is_online m (some i) now = is_none m.left_at && (is_none i.closed_at && ltb now i.lease_expires_at)

-- What a row of the roster query maps to. An observation that does not fit is invalid data.
unfoldable pub roster_row :
    UnixMillis → MembershipRecord → Option InstanceRow → Outcome RosterMember
unfolding is_online
roster_row now m i =
    let online = is_online m i now in
    let seen : Result DomainError AvailabilityObservation = elim i [
      | some r ↦
          if online
          then observe r.availability r.availability_source r.availability_observed_at
          else observe Availability.unknown AvailabilitySource.unknown now
      | none ↦ observe Availability.unknown AvailabilitySource.unknown now
    ] in
    elim seen [
      | ok a ↦ ok (record {
        membership = m;
        presence = if online then TransportPresence.online else TransportPresence.offline;
        mode = elim i [ none ↦ none | some r ↦ some r.mode ];
        availability = a;
        last_seen_at = elim i [ none ↦ none | some r ↦ some r.last_seen_at ];
      })
      | err e ↦ err (internal SqliteError.invalid_query)
    ]

-- `collect::<Result<Vec<_>, _>>`.
abbrev pub collect {ℓ κ} :
    {E : Type 0} {A : Type ℓ} {B : Type κ} → (A → Result E B) → List A → Result E (List B)
collect f [] = ok []
collect f (x ∷ xs) = elim (f x) [
  | err e ↦ err e
  | ok b ↦ elim (collect f xs) [ err e ↦ err e | ok bs ↦ ok (b ∷ bs) ]
]

unfoldable pub roster_rows : SquadId → UnixMillis → Db → Outcome (List RosterMember)
unfolding roster_row latest_instance
roster_rows squad now db =
    collect (λ (m : MembershipRow). roster_row now m.membership (latest_instance m.id db))
      (order_by joined_le (select_rows (λ m. m.squad_id == squad) db.memberships))

unfoldable pub roster : SquadName → UnixMillis → Exec (List RosterMember)
unfolding describe_squad roster_rows ◌>>=◌
roster squad_name now = do
  squad ← describe_squad squad_name
  rows ← query (roster_rows squad.id now)
  lift rows
