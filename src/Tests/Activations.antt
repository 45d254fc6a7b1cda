-- ===== src/Tests/Activations.antt =====
-- One wake of crates/psst-application/src/activation.rs: a start that fails, and one that completes.
use psst.Prelude.{◌+◌, ◌*◌, ◌<◌, ◌≤◌, ◌≡◌, refl, min, true, false, none, some, List, [], ◌∷◌, arith}
use psst.Core.Error.{ok, err}
use psst.Core.Time.{from_secs}
use psst.Protocol.Dto.{MessagePriorityDto}
use psst.Application.Activation.{
  ActivationPolicy, ActivationMachine, ActivationPhase, WakeMetadata, retry_after, new_machine,
  observe, wake_started, wake_retryable_failure, retry_delay, power_of_two, block, retry_due,
}
use psst.Application.Activation.Invariant.{
  IsSound, new_machine-IsSound, observe-IsSound, wake_started-IsSound,
}
use psst.Application.Activation.Reached.{created, then_called, Called, is_stop, Reached-IsSound}
use psst.Application.Activation.Delays.{wake_retryable_failure-delay}
use psst.Application.Activation.Drive.{
  Turn, run_activation, Round, answered, cancelled, HostFailure, jitter_delay, drive_wake,
}
use psst.Application.Activation.Wakes.{Driven, drive_wake-Driven, count_starts}
use psst.Application.Activation.Turns.{Turned, mails, run_activation-Turned}

abbrev policy : ActivationPolicy
policy = record {
  reconcile_interval = from_secs 60;
  initial_backoff = from_secs 1;
  maximum_backoff = from_secs 60;
  maximum_attempts = 3;
}

abbrev wake : WakeMetadata
wake = record {
  profile = "reviewer";
  squad = "alpha";
  pending_count = 2;
  highest_priority = MessagePriorityDto.high;
  oldest_message_id = "msg_1";
}

abbrev quiet_machine : ActivationMachine
quiet_machine = record {
  policy = policy;
  phase = ActivationPhase.quiet;
  pending = none;
  reconcile_needed = false;
  retry_attempt = 0;
}

abbrev due_machine : ActivationMachine
due_machine = record quiet_machine { phase = ActivationPhase.pending; pending = some wake }

abbrev waking_machine : ActivationMachine
waking_machine = record due_machine { phase = ActivationPhase.waking }

new_machine-policy : new_machine policy ≡ ok quiet_machine
unfolding new_machine
new_machine-policy = refl

quiet_machine-Sound : IsSound quiet_machine
quiet_machine-Sound = new_machine-IsSound policy quiet_machine new_machine-policy

observe-wake : (observe quiet_machine (some wake)).0 ≡ due_machine
unfolding observe
observe-wake = refl

due_machine-Sound : IsSound due_machine
due_machine-Sound =
    rw observe-wake at (observe-IsSound quiet_machine (some wake) quiet_machine-Sound)

started : (wake_started due_machine).0 ≡ waking_machine
unfolding wake_started
started = refl

-- `retry_due` at a machine that `block` has blocked.
abbrev blocked_machine : ActivationMachine
blocked_machine = block quiet_machine

abbrev retried_machine : ActivationMachine
retried_machine = (retry_due blocked_machine).0

abbrev retry_call : Called blocked_machine retried_machine
retry_call = Called.retries

Reached-IsSound_example :
    IsSound blocked_machine
    × IsSound retried_machine
    × (blocked_machine.phase ≡ ActivationPhase.stopped → retried_machine ≡ blocked_machine)
    × (blocked_machine.phase ≡ ActivationPhase.blocked
        → is_stop retry_call ≡ false
        → retried_machine ≡ blocked_machine)
    × (is_stop retry_call ≡ true
        → retried_machine ≡ record blocked_machine {
          phase = ActivationPhase.stopped;
          pending = none;
          reconcile_needed = false;
        })
Reached-IsSound_example =
    Reached-IsSound {p = policy} (then_called (created new_machine-policy) Called.blocks) retry_call

waking_machine-Sound : IsSound waking_machine
waking_machine-Sound = rw started at (wake_started-IsSound due_machine due_machine-Sound)

abbrev failed_machine : ActivationMachine
failed_machine = record waking_machine { phase = ActivationPhase.backoff; retry_attempt = 1 }

failed : wake_retryable_failure waking_machine ≡ (failed_machine, ok (retry_after (from_secs 1)))
unfolding wake_retryable_failure
failed = refl

wake_retryable_failure-delay_example :
    (failed_machine.retry_attempt ≡ waking_machine.retry_attempt + 1)
    × (failed_machine.retry_attempt ≤ 7)
    × (from_secs 1
        ≡ min
            (policy.initial_backoff * power_of_two waking_machine.retry_attempt)
            policy.maximum_backoff)
    × (policy.initial_backoff ≤ from_secs 1)
    × (from_secs 1 ≤ 300_000_000_000)
    × (retry_delay policy waking_machine.retry_attempt ≤ from_secs 1)
    × (jitter_delay (from_secs 1) (some 77) ≤ from_secs 1)
    × (from_secs 1 < 2 * jitter_delay (from_secs 1) (some 77) + 2_000_000)
wake_retryable_failure-delay_example =
    wake_retryable_failure-delay waking_machine failed_machine (from_secs 1) (some 77)
      waking_machine-Sound failed

abbrev fails_to_start : Round
fails_to_start = record {
  started = answered (err HostFailure.retryable_before_start);
  sample = some 77;
  waited = answered tt;
  completed = cancelled;
}

abbrev completes : Round
completes = record {
  started = answered (ok tt);
  sample = none;
  waited = cancelled;
  completed = answered (ok tt);
}

drive_wake-Driven_example :
    Driven wake due_machine
      (drive_wake (fails_to_start ∷ completes ∷ completes ∷ []) due_machine wake)
drive_wake-Driven_example =
    drive_wake-Driven (fails_to_start ∷ completes ∷ completes ∷ []) due_machine wake
      (record { sound = due_machine-Sound; phase = refl; mail = refl }) (omega arith)

drive_wake-quiet :
    (drive_wake (fails_to_start ∷ completes ∷ completes ∷ []) due_machine wake).machine
    ≡ quiet_machine
unfolding drive_wake
drive_wake-quiet = refl

-- Mail is found, then none.
abbrev turns : List Turn
turns =
    record {
      observed = answered (ok (some wake));
      waited = answered tt;
      rounds = fails_to_start ∷ completes ∷ completes ∷ [];
    }
    ∷ record {
      observed = answered (ok none);
      waited = answered tt;
      rounds = completes ∷ completes ∷ completes ∷ [];
    }
    ∷ []

run_activation-Turned_example :
    Turned policy (mails turns) (run_activation policy quiet_machine turns)
run_activation-Turned_example =
    run_activation-Turned policy quiet_machine turns new_machine-policy
      (omega arith, (omega arith, tt))

started_twice : count_starts (run_activation policy quiet_machine turns).calls ≡ 2
unfolding run_activation count_starts
started_twice = refl
