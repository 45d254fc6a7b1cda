-- ===== src/Application/Activation.antt =====
-- crates/psst-application/src/activation.rs: the policy, the wake metadata and the activation machine.
-- A method on `&mut self` returns the new machine beside its answer. A `Duration` is in nanoseconds.
pub mod Invariant
pub mod Reached
pub mod Delays
pub mod Drive
pub mod Wakes
pub mod Turns
use psst.Prelude.{
  ℕ, suc, ◌+◌, ◌-◌, ◌*◌, ◌/◌, ◌^◌, min, String, Bool, true, false, not, ◌&&◌, ◌||◌, Option, none,
  some, List, ltb, leb, eqb, all, is_none, if◌then◌else◌,
}
use psst.Prelude.Texts.{as_bytes, len, is_ascii_alphanumeric}
use psst.Core.Error.{Result, ok, err, ◌>>=◌, ◌>>◌}
use psst.Core.Time.{Duration, from_secs}
use psst.Protocol.Dto.{MessagePriorityDto}

abbrev pub max_wake_pending_count : ℕ
max_wake_pending_count = 1_000_000

abbrev pub max_wake_profile_bytes : ℕ
max_wake_profile_bytes = 64

abbrev pub max_wake_squad_bytes : ℕ
max_wake_squad_bytes = 64

abbrev pub max_wake_message_id_bytes : ℕ
max_wake_message_id_bytes = 128

abbrev pub min_reconcile_interval : Duration
min_reconcile_interval = from_secs 5

abbrev pub max_reconcile_interval : Duration
max_reconcile_interval = from_secs 60

abbrev pub max_backoff_duration : Duration
max_backoff_duration = from_secs 300

abbrev pub max_backoff_attempts : ℕ
max_backoff_attempts = 8

pub data ActivationPhase : Type 0 where
  quiet pending waking running backoff blocked stopped : ActivationPhase

pub data ActivationContractError : Type 0 where
  empty_profile invalid_profile empty_squad invalid_squad : ActivationContractError
  pending_count_out_of_range empty_oldest_message_id : ActivationContractError
  invalid_oldest_message_id reconcile_interval_out_of_range : ActivationContractError
  backoff_range_invalid invalid_transition : ActivationContractError

unfoldable pub validate_identifier :
    String
    → ℕ
    → ActivationContractError
    → ActivationContractError
    → Result ActivationContractError (Unit {0})
unfolding len as_bytes
validate_identifier value maximum_bytes empty invalid =
    if eqb (len value) 0
    then err empty
    else if ltb maximum_bytes (len value)
        || not (
            all (λ b. is_ascii_alphanumeric b || (eqb b b'-' || eqb b b'_' || eqb b b'.'))
              (as_bytes value))
    then err invalid
    else ok tt

pub record WakeMetadata : Type 0 where
  pub profile : String
  pub squad : String
  pub pending_count : ℕ
  pub highest_priority : MessagePriorityDto
  pub oldest_message_id : String

abbrev validate_count : ℕ → Result ActivationContractError (Unit {0})
validate_count count =
    if eqb count 0 || ltb max_wake_pending_count count
    then err pending_count_out_of_range
    else ok tt

-- `WakeMetadata::new`.
unfoldable pub new_wake :
    String → String → ℕ → MessagePriorityDto → String → Result ActivationContractError WakeMetadata
unfolding validate_identifier
new_wake profile squad count priority oldest = do
  validate_identifier profile max_wake_profile_bytes empty_profile invalid_profile
  validate_identifier squad max_wake_squad_bytes empty_squad invalid_squad
  validate_count count
  validate_identifier oldest max_wake_message_id_bytes empty_oldest_message_id
      invalid_oldest_message_id
  ok (record {
    profile = profile;
    squad = squad;
    pending_count = count;
    highest_priority = priority;
    oldest_message_id = oldest;
  })

pub record ActivationPolicy : Type 0 where
  pub reconcile_interval : Duration
  pub initial_backoff : Duration
  pub maximum_backoff : Duration
  pub maximum_attempts : ℕ

-- `ActivationPolicy::validate`.
unfoldable pub validate : ActivationPolicy → Result ActivationContractError ActivationPolicy
validate p =
    if not (
      leb min_reconcile_interval p.reconcile_interval
      && leb p.reconcile_interval max_reconcile_interval)
    then err reconcile_interval_out_of_range
    else if eqb p.initial_backoff 0
        || ltb p.maximum_backoff p.initial_backoff
        || ltb max_backoff_duration p.maximum_backoff
        || eqb p.maximum_attempts 0
        || ltb max_backoff_attempts p.maximum_attempts
    then err backoff_range_invalid
    else ok p

pub data ActivationCommand : Type 0 where
  nothing : ActivationCommand
  activate : WakeMetadata → ActivationCommand
  reconcile_now : ActivationCommand
  retry_after : Duration → ActivationCommand

pub record ActivationMachine : Type 0 where
  pub policy : ActivationPolicy
  pub phase : ActivationPhase
  pub pending : Option WakeMetadata
  pub reconcile_needed : Bool
  pub retry_attempt : ℕ

-- `ActivationMachine::new`.
unfoldable pub new_machine : ActivationPolicy → Result ActivationContractError ActivationMachine
unfolding validate
new_machine policy = do
  valid ← validate policy
  ok (record {
    policy = valid;
    phase = ActivationPhase.quiet;
    pending = none;
    reconcile_needed = false;
    retry_attempt = 0;
  })

abbrev observe_at :
    ActivationPhase → WakeMetadata → ActivationMachine → ActivationMachine × ActivationCommand
observe_at ActivationPhase.quiet wake m =
    (record m { phase = ActivationPhase.pending; pending = some wake }, activate wake)
observe_at ActivationPhase.blocked wake m = (m, nothing)
observe_at ActivationPhase.stopped wake m = (m, nothing)
observe_at _ wake m = (record m { pending = some wake; reconcile_needed = true }, nothing)

unfoldable pub observe :
    ActivationMachine → Option WakeMetadata → ActivationMachine × ActivationCommand
observe m none = (m, nothing)
observe m (some wake) = observe_at m.phase wake m

abbrev pub Answer : Type 0 → Type 0
Answer A = ActivationMachine × Result ActivationContractError A

abbrev pub is_pending : ActivationPhase → Bool
is_pending ActivationPhase.pending = true
is_pending _ = false

abbrev pub is_waking : ActivationPhase → Bool
is_waking ActivationPhase.waking = true
is_waking _ = false

abbrev pub is_backoff : ActivationPhase → Bool
is_backoff ActivationPhase.backoff = true
is_backoff _ = false

abbrev pub is_blocked : ActivationPhase → Bool
is_blocked ActivationPhase.blocked = true
is_blocked _ = false

abbrev pub is_stopped : ActivationPhase → Bool
is_stopped ActivationPhase.stopped = true
is_stopped _ = false

-- `matches!(self.phase, Waking | Running)`.
abbrev pub is_issued : ActivationPhase → Bool
is_issued ActivationPhase.waking = true
is_issued ActivationPhase.running = true
is_issued _ = false

unfoldable pub wake_started : ActivationMachine → Answer (Unit {0})
wake_started m =
    if not (is_pending m.phase) || is_none m.pending
    then (m, err invalid_transition)
    else (record m { phase = ActivationPhase.waking }, ok tt)

unfoldable pub wake_accepted : ActivationMachine → Answer (Unit {0})
wake_accepted m =
    if not (is_waking m.phase)
    then (m, err invalid_transition)
    else (record m { phase = ActivationPhase.running }, ok tt)

unfoldable pub wake_completed : ActivationMachine → Answer ActivationCommand
wake_completed m = if not (is_issued m.phase) then (m, err invalid_transition) else (
  record m {
    phase = ActivationPhase.quiet;
    pending = none;
    reconcile_needed = false;
    retry_attempt = 0;
  },
  ok reconcile_now,
)

-- `u8::saturating_add`, by one.
abbrev pub saturating_suc : ℕ → ℕ
saturating_suc n = min 0xff (n + 1)

abbrev or_maximum : Option Duration → Duration → Duration
or_maximum none maximum = maximum
or_maximum (some d) maximum = d

-- `Duration::checked_mul`: the seconds of the product fit in 64 bits.
unfoldable pub checked_mul : Duration → ℕ → Option Duration
checked_mul d k = if ltb (d * k / 1_000_000_000) (2 ^ 64) then some (d * k) else none

-- `2_u32.checked_pow(exponent).unwrap_or(u32::MAX)`.
unfoldable pub power_of_two : ℕ → ℕ
power_of_two exponent = if ltb exponent 32 then 2 ^ exponent else 2 ^ 32 - 1

-- The delay behind the `attempt`-th failure.
unfoldable pub retry_delay : ActivationPolicy → ℕ → Duration
unfolding checked_mul power_of_two
retry_delay policy attempt =
    min
      (or_maximum (checked_mul policy.initial_backoff (power_of_two (attempt - 1)))
        policy.maximum_backoff)
      policy.maximum_backoff

unfoldable pub wake_retryable_failure : ActivationMachine → Answer ActivationCommand
unfolding retry_delay
wake_retryable_failure m =
    let attempt = saturating_suc m.retry_attempt in
    if not (is_issued m.phase)
    then (m, err invalid_transition)
    else if leb m.policy.maximum_attempts attempt
    then (record m { phase = ActivationPhase.blocked; retry_attempt = attempt }, ok nothing)
    else (
      record m { phase = ActivationPhase.backoff; retry_attempt = attempt },
      ok (retry_after (retry_delay m.policy attempt)),
    )

abbrev due : ActivationMachine → Option WakeMetadata → Answer ActivationCommand
due m none = (m, err invalid_transition)
due m (some wake) =
    (record m { phase = ActivationPhase.pending; reconcile_needed = false }, ok (activate wake))

unfoldable pub retry_due : ActivationMachine → Answer ActivationCommand
retry_due m = if not (is_backoff m.phase) then (m, err invalid_transition) else due m m.pending

unfoldable pub wake_permanent_failure : ActivationMachine → Answer (Unit {0})
wake_permanent_failure m =
    if not (is_issued m.phase)
    then (m, err invalid_transition)
    else (record m { phase = ActivationPhase.blocked }, ok tt)

unfoldable pub stop : ActivationMachine → ActivationMachine
stop m = record m { phase = ActivationPhase.stopped; pending = none; reconcile_needed = false }

unfoldable pub block : ActivationMachine → ActivationMachine
block m = if is_stopped m.phase then m else record m { phase = ActivationPhase.blocked }
