-- ===== src/Application/Activation/Reached.antt =====
-- The activation machine of crates/psst-application/src/activation.rs as a relation of its methods.
use psst.Prelude.{◌≡◌, refl, Bool, true, false, Option, none, arith}
use psst.Core.Error.{ok}
use psst.Application.Activation.{
  ActivationMachine, ActivationPhase, ActivationPolicy, WakeMetadata, new_machine, observe,
  wake_started, wake_accepted, wake_completed, wake_retryable_failure, retry_due,
  wake_permanent_failure, stop, block,
}
use psst.Application.Activation.Invariant.{
  IsSound, new_machine-IsSound, observe-IsSound, wake_started-IsSound, wake_accepted-IsSound,
  wake_completed-IsSound, wake_retryable_failure-IsSound, retry_due-IsSound,
  wake_permanent_failure-IsSound, stop-IsSound, block-IsSound,
}

-- One call of a method, by whatever caller, also out of turn.
pub data Called (m : ActivationMachine) : ActivationMachine → Type 0 where
  observes : (w : Option WakeMetadata) → Called m (observe m w).0
  starts : Called m (wake_started m).0
  accepts : Called m (wake_accepted m).0
  completes : Called m (wake_completed m).0
  fails : Called m (wake_retryable_failure m).0
  retries : Called m (retry_due m).0
  gives_up : Called m (wake_permanent_failure m).0
  stops : Called m (stop m)
  blocks : Called m (block m)

pub data Reached (p : ActivationPolicy) : ActivationMachine → Type 0 where
  created : {m : ActivationMachine} → new_machine p ≡ ok m → Reached p m
  then_called : {m m' : ActivationMachine} → Reached p m → Called m m' → Reached p m'

Called-Sound : {m m' : ActivationMachine} → Called m m' → IsSound m → IsSound m'
Called-Sound {m} (observes w) s = observe-IsSound m w s
Called-Sound {m} starts s = wake_started-IsSound m s
Called-Sound {m} accepts s = wake_accepted-IsSound m s
Called-Sound {m} completes s = wake_completed-IsSound m s
Called-Sound {m} fails s = wake_retryable_failure-IsSound m s
Called-Sound {m} retries s = retry_due-IsSound m s
Called-Sound {m} gives_up s = wake_permanent_failure-IsSound m s
Called-Sound {m} stops s = stop-IsSound m s
Called-Sound {m} blocks s = block-IsSound m s

Reached-Sound : {p : ActivationPolicy} {m : ActivationMachine} → Reached p m → IsSound m
Reached-Sound {p} {m} (created h) = new_machine-IsSound p m h
Reached-Sound (then_called r c) = Called-Sound c (Reached-Sound r)

Called-stopped :
    {m m' : ActivationMachine}
    → Called m m'
    → IsSound m
    → m.phase ≡ ActivationPhase.stopped
    → m' ≡ m
unfolding observe wake_started wake_accepted wake_completed wake_retryable_failure retry_due
    wake_permanent_failure stop block
Called-stopped (observes w) s h = ground arith
Called-stopped starts s h = ground arith
Called-stopped accepts s h = ground arith
Called-stopped completes s h = ground arith
Called-stopped fails s h = ground arith
Called-stopped retries s h = ground arith
Called-stopped gives_up s h = ground arith
Called-stopped stops s h = ground arith
Called-stopped blocks s h = ground arith

abbrev pub is_stop : {m m' : ActivationMachine} → Called m m' → Bool
is_stop (observes w) = false
is_stop starts = false
is_stop accepts = false
is_stop completes = false
is_stop fails = false
is_stop retries = false
is_stop gives_up = false
is_stop stops = true
is_stop blocks = false

Called-blocked :
    {m m' : ActivationMachine} (c : Called m m')
    → m.phase ≡ ActivationPhase.blocked
    → is_stop c ≡ false
    → m' ≡ m
unfolding observe wake_started wake_accepted wake_completed wake_retryable_failure retry_due
    wake_permanent_failure block
Called-blocked (observes w) h n = ground arith
Called-blocked starts h n = ground arith
Called-blocked accepts h n = ground arith
Called-blocked completes h n = ground arith
Called-blocked fails h n = ground arith
Called-blocked retries h n = ground arith
Called-blocked gives_up h n = ground arith
Called-blocked stops h n = absurd (cc)
Called-blocked blocks h n = ground arith

Called-stop :
    {m m' : ActivationMachine} (c : Called m m')
    → is_stop c ≡ true
    → m' ≡ record m { phase = ActivationPhase.stopped; pending = none; reconcile_needed = false }
unfolding stop
Called-stop (observes w) h = absurd (cc)
Called-stop starts h = absurd (cc)
Called-stop accepts h = absurd (cc)
Called-stop completes h = absurd (cc)
Called-stop fails h = absurd (cc)
Called-stop retries h = absurd (cc)
Called-stop gives_up h = absurd (cc)
Called-stop stops h = refl
Called-stop blocks h = absurd (cc)

-- Whatever methods have been called on a new machine, in whatever order: its policy is within the
-- bounds; a quiet machine holds no mail and no failed attempts; one that is pending, waking, running
-- or in backoff holds the mail to wake for, with fewer failed attempts than the policy allows, in
-- backoff at least one; a stopped one holds no mail. Another call keeps all this, and leaves a stopped
-- machine as it is. A call other than `stop` leaves a blocked machine as it is. A call of `stop` stops
-- the machine, with no mail and no need to reconcile.
pub Reached-IsSound :
    {p : ActivationPolicy} {m m' : ActivationMachine} (r : Reached p m) (c : Called m m')
    → IsSound m
      × IsSound m'
      × (m.phase ≡ ActivationPhase.stopped → m' ≡ m)
      × (m.phase ≡ ActivationPhase.blocked → is_stop c ≡ false → m' ≡ m)
      × (is_stop c ≡ true
          → m' ≡ record m {
            phase = ActivationPhase.stopped;
            pending = none;
            reconcile_needed = false;
          })
Reached-IsSound r c =
    let s = Reached-Sound r in
    (s, Called-Sound c s, Called-stopped c s, Called-blocked c, Called-stop c)
