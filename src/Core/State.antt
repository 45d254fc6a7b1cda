-- ===== src/Core/State.antt =====
-- crates/psst-core/src/state.rs: lifecycle states, lease renewal and availability observations. A
-- method on `&mut self` returns the new state.
pub mod Leases
use psst.Prelude.{ℕ, ◌≡◌, Bool, true, false, Option, none, some, leb, is_some, if◌then◌else◌, max}
use psst.Core.Error.{Result, ok, err, ◌>>=◌, DomainError, invalid_state_transition, new_invalid}
use psst.Core.Time.{UnixMillis, Duration, checked_add}

pub data AgentMode : Type 0 where
  cooperative scheduled harnessed : AgentMode

pub data SquadState : Type 0 where
  active archived : SquadState

unfoldable pub archive : SquadState → Result DomainError SquadState
archive archived = err (invalid_state_transition "squad" "archive")
archive active = ok archived

pub data MembershipState : Type 0 where
  joined left : MembershipState

unfoldable pub leave : MembershipState → Result DomainError MembershipState
leave left = err (invalid_state_transition "membership" "leave")
leave joined = ok left

pub data InstanceState : Type 0 where
  online expired closed : InstanceState

-- `InstanceState::at`.
unfoldable pub at : Option UnixMillis → UnixMillis → UnixMillis → InstanceState
at closed_at lease_expires_at now =
    if is_some closed_at
    then InstanceState.closed
    else if leb lease_expires_at now
    then InstanceState.expired
    else InstanceState.online

unfoldable pub close : InstanceState → Result DomainError InstanceState
close InstanceState.online = ok InstanceState.closed
close InstanceState.expired = err (invalid_state_transition "instance" "close")
close InstanceState.closed = err (invalid_state_transition "instance" "close")

abbrev pub is_closed : InstanceState → Bool
is_closed InstanceState.closed = true
is_closed _ = false

abbrev pub is_expired : InstanceState → Bool
is_expired InstanceState.expired = true
is_expired _ = false

-- `checked_add(…).ok_or_else(…)?` and the maximum with the current expiry.
abbrev extend_lease : UnixMillis → Option UnixMillis → Result DomainError UnixMillis
extend_lease current none =
    err (DomainError.invalid_value (new_invalid "lease" "overflows timestamp"))
extend_lease current (some candidate) = ok (max candidate current)

unfoldable pub renew_lease :
    InstanceState → UnixMillis → UnixMillis → Duration → Result DomainError UnixMillis
renew_lease state current_expiry now duration =
    if is_closed state
    then err (invalid_state_transition "instance" "heartbeat")
    else if is_expired state
    then err DomainError.lease_expired
    else if leb current_expiry now
    then err DomainError.lease_expired
    else extend_lease current_expiry (checked_add now duration)

pub data MessageState : Type 0 where
  pending acknowledged : MessageState

unfoldable pub acknowledge : MessageState → Result DomainError MessageState
acknowledge acknowledged = err (invalid_state_transition "message" "acknowledge")
acknowledge pending = ok acknowledged

pub data Availability : Type 0 where
  idle busy blocked unknown : Availability

pub data AvailabilitySource : Type 0 where
  session_lifecycle mcp_connection tool_activity agent_reported unknown : AvailabilitySource

abbrev pub is_unknown : Availability → Bool
is_unknown Availability.unknown = true
is_unknown _ = false

abbrev pub is_unknown_source : AvailabilitySource → Bool
is_unknown_source AvailabilitySource.unknown = true
is_unknown_source _ = false

pub record AvailabilityObservation : Type 0 where
  pub availability : Availability
  pub source : AvailabilitySource
  pub observed_at : UnixMillis

abbrev same : Bool → Bool → Bool
same true b = b
same false true = false
same false false = true

-- `AvailabilityObservation::new`.
unfoldable pub observe :
    Availability → AvailabilitySource → UnixMillis → Result DomainError AvailabilityObservation
observe a s t =
    if same (is_unknown a) (is_unknown_source s)
    then ok (record { availability = a; source = s; observed_at = t })
    else err (
        DomainError.invalid_value (
          new_invalid "availability"
            "availability and observation source must both be known or both be unknown"))
