-- ===== src/Application/Activation/Invariant.antt =====
-- What holds of the activation machine of crates/psst-application/src/activation.rs between calls.
use psst.Prelude.{◌<◌, ◌≤◌, ◌≡◌, Bool, true, false, Option, none, some, arith, is_some}
use psst.Core.Error.{ok}
use psst.Application.Activation.{
  ActivationMachine, ActivationPhase, ActivationPolicy, WakeMetadata, validate, new_machine,
  observe, wake_started, wake_accepted, wake_completed, wake_retryable_failure, retry_due,
  wake_permanent_failure, stop, block,
}

-- The phases in which mail waits for the host.
abbrev pub is_live : ActivationPhase → Bool
is_live ActivationPhase.pending = true
is_live ActivationPhase.waking = true
is_live ActivationPhase.running = true
is_live ActivationPhase.backoff = true
is_live _ = false

pub record IsSound (m : ActivationMachine) : Type 0 where
  pub bounds : validate m.policy ≡ ok m.policy
  pub quiet_empty : m.phase ≡ ActivationPhase.quiet → m.pending ≡ none
  pub quiet_settled : m.phase ≡ ActivationPhase.quiet → m.reconcile_needed ≡ false
  pub quiet_fresh : m.phase ≡ ActivationPhase.quiet → m.retry_attempt ≡ 0
  pub live_mail : is_live m.phase ≡ true → is_some m.pending ≡ true
  pub live_attempts : is_live m.phase ≡ true → m.retry_attempt < m.policy.maximum_attempts
  pub backoff_failed : m.phase ≡ ActivationPhase.backoff → 0 < m.retry_attempt
  pub stopped_empty : m.phase ≡ ActivationPhase.stopped → m.pending ≡ none
  pub stopped_settled : m.phase ≡ ActivationPhase.stopped → m.reconcile_needed ≡ false
  pub attempts : m.retry_attempt ≤ m.policy.maximum_attempts

pub attempts_positive :
    (p : ActivationPolicy) → validate p ≡ ok p → (0 < p.maximum_attempts) × (p.maximum_attempts ≤ 8)
unfolding validate
attempts_positive p h = ground arith

pub new_machine-IsSound :
    (p : ActivationPolicy) (m : ActivationMachine) → new_machine p ≡ ok m → IsSound m
unfolding new_machine
new_machine-IsSound p m h = ground arith

pub observe-IsSound :
    (m : ActivationMachine) (w : Option WakeMetadata) → IsSound m → IsSound (observe m w).0
unfolding observe
observe-IsSound m none s = s
observe-IsSound m (some w) s = ground (arith, attempts_positive m.policy)

pub wake_started-IsSound : (m : ActivationMachine) → IsSound m → IsSound (wake_started m).0
unfolding wake_started
wake_started-IsSound m s = ground arith

pub wake_accepted-IsSound : (m : ActivationMachine) → IsSound m → IsSound (wake_accepted m).0
unfolding wake_accepted
wake_accepted-IsSound m s = ground arith

pub wake_completed-IsSound : (m : ActivationMachine) → IsSound m → IsSound (wake_completed m).0
unfolding wake_completed
wake_completed-IsSound m s = ground arith

pub wake_retryable_failure-IsSound :
    (m : ActivationMachine) → IsSound m → IsSound (wake_retryable_failure m).0
unfolding wake_retryable_failure
wake_retryable_failure-IsSound m s = ground (arith, attempts_positive m.policy)

pub retry_due-IsSound : (m : ActivationMachine) → IsSound m → IsSound (retry_due m).0
unfolding retry_due
retry_due-IsSound m s = ground arith

pub wake_permanent_failure-IsSound :
    (m : ActivationMachine) → IsSound m → IsSound (wake_permanent_failure m).0
unfolding wake_permanent_failure
wake_permanent_failure-IsSound m s = ground arith

pub stop-IsSound : (m : ActivationMachine) → IsSound m → IsSound (stop m)
unfolding stop
stop-IsSound m s = ground arith

pub block-IsSound : (m : ActivationMachine) → IsSound m → IsSound (block m)
unfolding block
block-IsSound m s = ground arith
