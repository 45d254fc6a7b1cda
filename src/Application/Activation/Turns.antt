-- ===== src/Application/Activation/Turns.antt =====
-- What the loop of `run_activation` in crates/psst-application/src/activation.rs does with its turns.
use psst.Prelude.{
  ℕ, ◌+◌, ◌*◌, ◌≤◌, ◌≡◌, inl, inr, refl, sym, subst, ◌∙◌, Bool, true, false, Option, none, some,
  List, [], ◌∷◌, ◌++◌, length, leb, All, arith, Bool-cases,
}
use psst.Core.Error.{Result, ok, err}
use psst.Core.Time.{Duration}
use psst.Application.Activation.{
  ActivationMachine, ActivationPhase, ActivationPolicy, WakeMetadata, new_machine, observe,
  is_blocked, ActivationCommand, activate, nothing, saturating_suc, retry_delay,
}
use psst.Application.Activation.Invariant.{
  IsSound, new_machine-IsSound, observe-IsSound, block-IsSound,
}
use psst.Application.Activation.Drive.{
  Round, Call, Drive, Awaited, ObservationFailure, cancelled, answered, observes, starts, sleeps,
  awaits_completion, Turn, Loop, Step, goes_on, breaks, unfinished, Run, drive_wake, driven_by,
  drive_by, failed_wait, commanded_by, observed_by, activation_step, run_on, run_from,
  run_activation, maximum_wait,
}
use psst.Application.Activation.Wakes.{count_starts, Due, Driven, drive_wake-Driven}

-- The turns that find mail.
abbrev pub mail_of : Awaited (Result ObservationFailure (Option WakeMetadata)) → ℕ
mail_of (answered (ok (some _))) = 1
mail_of _ = 0

abbrev pub mails : List Turn → ℕ
mails [] = 0
mails (turn ∷ turns) = mail_of turn.observed + mails turns

-- The machine between turns.
pub record Ready (policy : ActivationPolicy) (m : ActivationMachine) : Type 0 where
  pub sound : IsSound m
  pub quiet : m.phase ≡ ActivationPhase.quiet
  pub ruled : m.policy ≡ policy

abbrev Ends : ActivationPolicy → ℕ → Step → Type 0
Ends policy n (goes_on s calls) =
    Ready policy s.machine
    × (n ≤ count_starts calls)
    × (count_starts calls ≤ n * policy.maximum_attempts)
Ends policy n (breaks m calls) = IsSound m × (count_starts calls ≤ n * policy.maximum_attempts)
Ends policy n (unfinished m calls) = ⊥

starts_bound :
    (policy : ActivationPolicy) (m : ActivationMachine) (calls : List Call)
    → m.policy ≡ policy
    → count_starts calls + m.retry_attempt ≤ m.policy.maximum_attempts
    → count_starts calls ≤ 1 * policy.maximum_attempts
starts_bound policy m calls r few =
    let bound : count_starts calls + m.retry_attempt ≤ policy.maximum_attempts =
      subst (λ (p : ActivationPolicy). count_starts calls + m.retry_attempt ≤ p.maximum_attempts) r
        few in
    omega arith

driven_by-Ends :
    (policy : ActivationPolicy) (wake : WakeMetadata) (m : ActivationMachine) (d : Drive)
    (stopped : Bool)
    → m.policy ≡ policy
    → (h : Driven wake m d) → h.stopped ≡ stopped
    → Ends policy 1 (driven_by (some stopped) d)
driven_by-Ends policy wake m d true r h e = (h.left.sound, starts_bound policy m d.calls r h.few)
driven_by-Ends policy wake m d false r h e = elim (h.left.settled e) [
  | inl quiet ↦
      let goes : is_blocked d.machine.phase ≡ false = rw quiet refl in
      rw goes (
        record { sound = h.left.sound; quiet = quiet; ruled = h.policy ∙ r },
        h.some_start,
        starts_bound policy m d.calls r h.few,
      )
  | inr blocked ↦
      let ends : is_blocked d.machine.phase ≡ true = rw blocked refl in
      rw ends (h.left.sound, starts_bound policy m d.calls r h.few)
]

observe-Due :
    (policy : ActivationPolicy) (wake : WakeMetadata) (m : ActivationMachine)
    → Ready policy m
    → Due wake (observe m (some wake)).0
      × ((observe m (some wake)).1 ≡ activate wake)
      × ((observe m (some wake)).0.policy ≡ policy)
unfolding observe
observe-Due policy wake m r = (
  record {
    sound = observe-IsSound m (some wake) r.sound;
    phase = ground (arith, r.quiet);
    mail = ground (arith, r.quiet);
  },
  ground (arith, r.quiet),
  ground (arith, r.quiet, r.ruled),
)

observe-none : (m : ActivationMachine) → observe m none ≡ (m, nothing)
unfolding observe
observe-none m = ground arith

commanded_by-Ends :
    (policy : ActivationPolicy) (m : ActivationMachine) (rounds : List Round)
    (pending : Option WakeMetadata)
    → Ready policy m
    → policy.maximum_attempts ≤ length rounds
    → Ends policy (mail_of (answered (ok pending))) (commanded_by policy (observe m pending) rounds)
unfolding count_starts
commanded_by-Ends policy m rounds none r h =
    subst (λ x. Ends policy 0 (commanded_by policy x rounds)) (sym (observe-none m))
      (r, omega arith, omega arith)
commanded_by-Ends policy m rounds (some wake) r h =
    let (due, command, ruled) = observe-Due policy wake m r in
    let woken = (observe m (some wake)).0 in
    let enough : woken.policy.maximum_attempts ≤ length rounds + woken.retry_attempt =
      subst (λ (p : ActivationPolicy). p.maximum_attempts ≤ length rounds + woken.retry_attempt)
        (sym ruled) (omega arith) in
    let d = drive_wake-Driven rounds woken wake due enough in
    let driven : Drive = drive_wake rounds woken wake in
    let ended : Ends policy 1 (drive_by driven) =
      subst (λ (a : Option Bool). Ends policy 1 (driven_by a driven)) (sym d.answers)
        (driven_by-Ends policy wake woken driven d.stopped ruled d refl) in
    subst (λ (c : ActivationCommand). Ends policy 1 (commanded_by policy (woken, c) rounds))
      (sym command) ended

waited-Ends :
    (policy : ActivationPolicy) (a : Awaited (Unit {0})) (next : Loop) (d : Duration)
    → Ready policy next.machine
    → Ends policy 0 (failed_wait a next d)
unfolding count_starts
waited-Ends policy cancelled next d r = (r.sound, omega arith)
waited-Ends policy (answered _) next d r = (r, omega arith, omega arith)

step-Ends :
    (policy : ActivationPolicy) (s : Loop) (turn : Turn)
    → Ready policy s.machine
    → policy.maximum_attempts ≤ length turn.rounds
    → Ends policy (mail_of turn.observed) (activation_step policy s turn)
unfolding activation_step count_starts
step-Ends policy s turn r h = ended turn.observed
  where
    ended :
        (o : Awaited (Result ObservationFailure (Option WakeMetadata)))
        → Ends policy (mail_of o) (observed_by policy o s turn)
    ended cancelled = (r.sound, omega arith)
    ended (answered (ok pending)) = commanded_by-Ends policy s.machine turn.rounds pending r h
    ended (answered (err ObservationFailure.permanent)) =
        (block-IsSound s.machine r.sound, omega arith)
    ended (answered (err ObservationFailure.retryable)) =
        let failures = saturating_suc s.observation_failures in
        elim (Bool-cases (leb policy.maximum_attempts failures)) [
          | inl over ↦ rw over (block-IsSound s.machine r.sound, omega arith)
          | inr more ↦ rw more (
              waited-Ends policy turn.waited
                (record {
                  machine = s.machine;
                  next_wait = maximum_wait policy;
                  observation_failures = failures;
                })
                (retry_delay policy failures) r)
        ]

count_starts-append :
    (xs ys : List Call) → count_starts (xs ++ ys) ≡ count_starts xs + count_starts ys
unfolding count_starts
count_starts-append [] ys = omega arith
count_starts-append (starts w ∷ xs) ys = omega (arith, count_starts-append xs ys)
count_starts-append (observes d ∷ xs) ys = count_starts-append xs ys
count_starts-append (sleeps d ∷ xs) ys = count_starts-append xs ys
count_starts-append (awaits_completion ∷ xs) ys = count_starts-append xs ys

-- How the loop stands behind turns that found mail n times.
pub record Turned (policy : ActivationPolicy) (n : ℕ) (r : Run) : Type 0 where
  pub sound : IsSound r.machine
  pub ready : r.goes ≡ true → Ready policy r.machine
  pub woken : r.goes ≡ true → n ≤ count_starts r.calls
  pub bounded : count_starts r.calls ≤ n * policy.maximum_attempts

times_both : (a b k n m : ℕ) → a ≤ k * m → b ≤ n * m → a + b ≤ (k + n) * m
times_both a b k n m h g = grind arith

times_more : (a k n m : ℕ) → a ≤ k * m → a ≤ (k + n) * m
times_more a k n m h = grind arith

run_on-Turned :
    (policy : ActivationPolicy) (k n : ℕ) (go : Loop → Run) (wait : Duration) (step : Step)
    → Ends policy k step
    → ((s : Loop) → Ready policy s.machine → Turned policy n (go s))
    → Turned policy (k + n) (run_on go wait step)
unfolding count_starts
run_on-Turned policy k n go wait (goes_on s calls) (r, some_, few) ih =
    let t = ih s r in
    record {
      sound = t.sound;
      ready = t.ready;
      woken = λ h. omega (arith, count_starts-append calls (go s).calls, t.woken h);
      bounded =
          subst (λ c. c ≤ (k + n) * policy.maximum_attempts)
            (sym (count_starts-append calls (go s).calls))
            (times_both (count_starts calls) (count_starts (go s).calls) k n policy.maximum_attempts
              few t.bounded);
    }
run_on-Turned policy k n go wait (breaks m calls) (s, few) ih = record {
  sound = s;
  ready = λ h. absurd (cc);
  woken = λ h. absurd (cc);
  bounded = times_more (count_starts calls) k n policy.maximum_attempts few;
}
run_on-Turned policy k n go wait (unfinished m calls) e ih = absurd e

run_from-Turned :
    (policy : ActivationPolicy) (turns : List Turn) (s : Loop)
    → Ready policy s.machine
    → All (λ turn. policy.maximum_attempts ≤ length turn.rounds) turns
    → Turned policy (mails turns) (run_from policy turns s)
unfolding run_from count_starts
run_from-Turned policy [] s r h = record {
  sound = r.sound;
  ready = λ _. r;
  woken = λ _. omega arith;
  bounded = omega arith;
}
run_from-Turned policy (turn ∷ turns) s r h =
    run_on-Turned policy (mail_of turn.observed) (mails turns) (run_from policy turns) s.next_wait
      (activation_step policy s turn) (step-Ends policy s turn r h.0)
      (λ next q. run_from-Turned policy turns next q h.1)

new_machine-Ready :
    (policy : ActivationPolicy) (m : ActivationMachine) → new_machine policy ≡ ok m → Ready policy m
unfolding new_machine
new_machine-Ready policy m h = record {
  sound = new_machine-IsSound policy m h;
  quiet = ground arith;
  ruled = ground arith;
}

-- The loop on a new machine, when each turn has at least as many rounds at hand as the policy has
-- attempts. While it goes on, the machine is quiet and sound between turns, so it is never left in
-- the middle of a wake, and the host was started at least as often as a turn found mail. However it
-- ends, the machine is sound, and the host was started no more often than the policy has attempts for
-- each turn that found mail; so never, if none did.
pub run_activation-Turned :
    (policy : ActivationPolicy) (m : ActivationMachine) (turns : List Turn)
    → new_machine policy ≡ ok m
    → All (λ turn. policy.maximum_attempts ≤ length turn.rounds) turns
    → Turned policy (mails turns) (run_activation policy m turns)
unfolding run_activation
run_activation-Turned policy m turns h enough =
    run_from-Turned policy turns
      (record { machine = m; next_wait = maximum_wait policy; observation_failures = 0 })
      (new_machine-Ready policy m h) enough
