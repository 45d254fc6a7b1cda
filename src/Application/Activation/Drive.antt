-- ===== src/Application/Activation/Drive.antt =====
-- crates/psst-application/src/activation.rs: the loops that drive the machine. What the environment
-- answers, the host, the inbox and the cancellation token, is an argument; the calls that the loop
-- makes are listed beside its answer. The loops are the only writers of the machine while they run.
use psst.Prelude.{
  ℕ, ◌+◌, ◌-◌, ◌*◌, ◌/◌, ◌%◌, ◌^◌, min, Bool, true, false, Option, none, some, List, [], ◌∷◌, ◌++◌,
  ltb, leb, if◌then◌else◌,
}
use psst.Core.Error.{Result, ok, err}
use psst.Core.Time.{Duration, as_millis, from_secs}
use psst.Application.Activation.{
  ActivationPolicy, ActivationMachine, WakeMetadata, ActivationCommand, Answer, activate,
  retry_after, observe, wake_started, wake_accepted, wake_completed, wake_retryable_failure,
  retry_due, wake_permanent_failure, block, is_blocked, saturating_suc, retry_delay,
}

pub data HostFailure : Type 0 where
  retryable_before_start outcome_unknown permanent : HostFailure

pub data ObservationFailure : Type 0 where
  retryable permanent : ObservationFailure

-- An await that the token may cancel first.
pub data Awaited (A : Type 0) : Type 0 where
  cancelled : Awaited A
  answered : A → Awaited A

-- What one round of `drive_wake` meets: `host.start`, the wait before a retry with the random bytes
-- of its jitter, and `turn.completed`.
pub record Round : Type 0 where
  pub started : Awaited (Result HostFailure (Unit {0}))
  pub sample : Option ℕ
  pub waited : Awaited (Unit {0})
  pub completed : Awaited (Result HostFailure (Unit {0}))

-- The calls that a loop makes.
pub data Call : Type 0 where
  observes : Duration → Call
  starts : WakeMetadata → Call
  sleeps : Duration → Call
  awaits_completion : Call

-- `u64::try_from(delay.as_millis()).unwrap_or(u64::MAX)`.
abbrev ceiling_millis : Duration → ℕ
ceiling_millis delay = min (as_millis delay) (2 ^ 64 - 1)

unfoldable pub jitter_delay_from : Duration → ℕ → Duration
jitter_delay_from delay sample =
    let ceiling = ceiling_millis delay in
    if ltb ceiling 2
    then delay
    else (ceiling / 2 + sample % (ceiling - ceiling / 2 + 1)) * 1_000_000

-- The random bytes are absent if the platform's generator fails.
unfoldable pub jitter_delay : Duration → Option ℕ → Duration
unfolding jitter_delay_from
jitter_delay delay none = delay
jitter_delay delay (some sample) =
    if ltb (ceiling_millis delay) 2 then delay else jitter_delay_from delay sample

-- How a round of `drive_wake` ends: with the next round, or with the answer, `true` if it was
-- cancelled.
pub data Flow : Type 0 where
  continues : ActivationMachine → WakeMetadata → List Call → Flow
  returns : ActivationMachine → Bool → List Call → Flow

-- `turn.completed()`.
abbrev completed_by :
    ActivationMachine → WakeMetadata → Awaited (Result HostFailure (Unit {0})) → Flow
completed_by m wake cancelled = returns m true (starts wake ∷ awaits_completion ∷ [])
completed_by m wake (answered (ok _)) =
    returns (wake_completed m).0 false (starts wake ∷ awaits_completion ∷ [])
completed_by m wake (answered (err _)) =
    returns (wake_permanent_failure m).0 false (starts wake ∷ awaits_completion ∷ [])

abbrev accepted_by : Answer (Unit {0}) → WakeMetadata → Round → Flow
accepted_by (m, ok _) wake round = completed_by m wake round.completed
accepted_by (m, err _) wake round = returns (block m) false (starts wake ∷ [])

abbrev retained : Answer ActivationCommand → WakeMetadata → Duration → Flow
retained (m, ok (activate next)) wake delay = continues m next (starts wake ∷ sleeps delay ∷ [])
retained (m, ok _) wake delay = returns (block m) false (starts wake ∷ sleeps delay ∷ [])
retained (m, err _) wake delay = returns (block m) false (starts wake ∷ sleeps delay ∷ [])

-- `wait_or_cancel`.
abbrev waited_by : Awaited (Unit {0}) → ActivationMachine → WakeMetadata → Duration → Flow
waited_by cancelled m wake delay = returns m true (starts wake ∷ sleeps delay ∷ [])
waited_by (answered _) m wake delay = retained (retry_due m) wake delay

abbrev failed_by : Answer ActivationCommand → WakeMetadata → Round → Flow
failed_by (m, ok (retry_after delay)) wake round =
    waited_by round.waited m wake (jitter_delay delay round.sample)
failed_by (m, ok _) wake round = returns m false (starts wake ∷ [])
failed_by (m, err _) wake round = returns (block m) false (starts wake ∷ [])

abbrev started_by :
    Awaited (Result HostFailure (Unit {0})) → ActivationMachine → WakeMetadata → Round → Flow
started_by cancelled m wake round = returns m true (starts wake ∷ [])
started_by (answered (ok _)) m wake round = accepted_by (wake_accepted m) wake round
started_by (answered (err HostFailure.retryable_before_start)) m wake round =
    failed_by (wake_retryable_failure m) wake round
started_by (answered (err _)) m wake round =
    returns (wake_permanent_failure m).0 false (starts wake ∷ [])

abbrev issued_by : Answer (Unit {0}) → WakeMetadata → Round → Flow
issued_by (m, ok _) wake round = started_by round.started m wake round
issued_by (m, err _) wake round = returns (block m) false []

-- The body of the loop of `drive_wake`.
unfoldable pub drive_round : ActivationMachine → WakeMetadata → Round → Flow
unfolding wake_started wake_accepted wake_completed wake_retryable_failure retry_due
    wake_permanent_failure block jitter_delay
drive_round m wake round = issued_by (wake_started m) wake round

-- What `drive_wake` answers, `none` if it takes more rounds than are given.
pub record Drive : Type 0 where
  pub machine : ActivationMachine
  pub answer : Option Bool
  pub calls : List Call

abbrev pub called : List Call → Drive → Drive
called before d = record d { calls = before ++ d.calls }

abbrev pub flow_on : (ActivationMachine → WakeMetadata → Drive) → Flow → Drive
flow_on next (continues m wake calls) = called calls (next m wake)
flow_on next (returns m stopped calls) = record {
  machine = m;
  answer = some stopped;
  calls = calls;
}

unfoldable pub drive_wake : List Round → ActivationMachine → WakeMetadata → Drive
unfolding drive_round
drive_wake [] m wake = record { machine = m; answer = none; calls = [] }
drive_wake (round ∷ rounds) m wake = flow_on (drive_wake rounds) (drive_round m wake round)

-- What one turn of the loop of `run_activation` meets: the answer of the inbox, the wait behind a
-- failure, and the rounds of the wake.
pub record Turn : Type 0 where
  pub observed : Awaited (Result ObservationFailure (Option WakeMetadata))
  pub waited : Awaited (Unit {0})
  pub rounds : List Round

-- The state of the loop: the machine, `next_wait` and `observation_failures`.
pub record Loop : Type 0 where
  pub machine : ActivationMachine
  pub next_wait : Duration
  pub observation_failures : ℕ

pub data Step : Type 0 where
  goes_on : Loop → List Call → Step
  breaks : ActivationMachine → List Call → Step
  -- `drive_wake` takes more rounds than are given.
  unfinished : ActivationMachine → List Call → Step

abbrev pub maximum_wait : ActivationPolicy → Duration
maximum_wait policy = min policy.reconcile_interval (from_secs 30)

-- Behind `drive_wake`, by its answer.
abbrev pub driven_by : Option Bool → Drive → Step
driven_by none d = unfinished d.machine d.calls
driven_by (some true) d = breaks d.machine d.calls
driven_by (some false) d =
    if is_blocked d.machine.phase
    then breaks d.machine d.calls
    else goes_on (record { machine = d.machine; next_wait = 0; observation_failures = 0 }) d.calls

abbrev pub drive_by : Drive → Step
drive_by d = driven_by d.answer d

abbrev pub commanded_by :
    ActivationPolicy → ActivationMachine × ActivationCommand → List Round → Step
commanded_by policy (m, activate wake) rounds = drive_by (drive_wake rounds m wake)
commanded_by policy (m, _) rounds =
    goes_on (record { machine = m; next_wait = maximum_wait policy; observation_failures = 0 }) []

abbrev pub failed_wait : Awaited (Unit {0}) → Loop → Duration → Step
failed_wait cancelled next delay = breaks next.machine (sleeps delay ∷ [])
failed_wait (answered _) next delay = goes_on next (sleeps delay ∷ [])

abbrev pub observed_by :
    ActivationPolicy
    → Awaited (Result ObservationFailure (Option WakeMetadata))
    → Loop
    → Turn
    → Step
observed_by policy cancelled s turn = breaks s.machine []
observed_by policy (answered (ok pending)) s turn =
    commanded_by policy (observe s.machine pending) turn.rounds
observed_by policy (answered (err ObservationFailure.permanent)) s turn =
    breaks (block s.machine) []
observed_by policy (answered (err ObservationFailure.retryable)) s turn =
    let failures = saturating_suc s.observation_failures in
    if leb policy.maximum_attempts failures
    then breaks (block s.machine) []
    else failed_wait turn.waited
        (record {
          machine = s.machine;
          next_wait = maximum_wait policy;
          observation_failures = failures;
        })
        (retry_delay policy failures)

-- The body of the loop of `run_activation`.
unfoldable pub activation_step : ActivationPolicy → Loop → Turn → Step
unfolding observe drive_wake block retry_delay
activation_step policy s turn = observed_by policy turn.observed s turn

-- How `run_activation` stands behind some turns: it goes on, or it ended.
pub record Run : Type 0 where
  pub machine : ActivationMachine
  pub goes : Bool
  pub calls : List Call

abbrev pub having : List Call → Run → Run
having before r = record r { calls = before ++ r.calls }

abbrev pub run_on : (Loop → Run) → Duration → Step → Run
run_on go wait (goes_on next calls) = having (observes wait ∷ calls) (go next)
run_on go wait (breaks m calls) = record {
  machine = m;
  goes = false;
  calls = observes wait ∷ calls;
}
run_on go wait (unfinished m calls) = record {
  machine = m;
  goes = true;
  calls = observes wait ∷ calls;
}

unfoldable pub run_from : ActivationPolicy → List Turn → Loop → Run
unfolding activation_step
run_from policy [] s = record { machine = s.machine; goes = true; calls = [] }
run_from policy (turn ∷ turns) s =
    run_on (run_from policy turns) s.next_wait (activation_step policy s turn)

unfoldable pub run_activation : ActivationPolicy → ActivationMachine → List Turn → Run
unfolding run_from
run_activation policy m turns =
    run_from policy turns
      (record { machine = m; next_wait = maximum_wait policy; observation_failures = 0 })
