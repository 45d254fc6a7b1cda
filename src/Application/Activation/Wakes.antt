-- ===== src/Application/Activation/Wakes.antt =====
-- What `drive_wake` of crates/psst-application/src/activation.rs does with one wake.
use psst.Prelude.{
  ℕ, ◌+◌, ◌<◌, ◌≤◌, ◌≡◌, ◌⊎◌, inl, inr, refl, Bool, false, Option, some, List, [], ◌∷◌, arith, leb,
  Bool-cases, length, subst, sym, ◌∙◌,
}
use psst.Core.Error.{Result, ok, err}
use psst.Core.Time.{Duration}
use psst.Application.Activation.{
  ActivationMachine, ActivationPhase, ActivationPolicy, WakeMetadata, saturating_suc, retry_delay,
}
use psst.Application.Activation.Invariant.{IsSound, attempts_positive}
use psst.Application.Activation.Drive.{
  Round, Call, Flow, Drive, Awaited, HostFailure, cancelled, answered, observes, starts, sleeps,
  awaits_completion, continues, returns, drive_round, drive_wake, flow_on, jitter_delay,
}

-- How often a host turn is started.
unfoldable pub count_starts : List Call → ℕ
count_starts [] = 0
count_starts (starts w ∷ calls) = count_starts calls + 1
count_starts (observes d ∷ calls) = count_starts calls
count_starts (sleeps d ∷ calls) = count_starts calls
count_starts (awaits_completion ∷ calls) = count_starts calls

-- Every start is for this wake, and nothing is called behind the await of a turn that was accepted.
abbrev pub IsFor : WakeMetadata → List Call → Type 0
IsFor wake [] = Unit
IsFor wake (starts w ∷ calls) = (w ≡ wake) × IsFor wake calls
IsFor wake (observes d ∷ calls) = ⊥
IsFor wake (sleeps d ∷ calls) = IsFor wake calls
IsFor wake (awaits_completion ∷ calls) = calls ≡ []

-- The machine as `drive_wake` leaves it: the mail is dropped only by a turn that completed, and kept
-- otherwise, and a loop that was not cancelled leaves the machine quiet or blocked.
pub record Left (wake : WakeMetadata) (cancelled : Bool) (m : ActivationMachine) : Type 0 where
  pub sound : IsSound m
  pub settled :
      cancelled ≡ false → (m.phase ≡ ActivationPhase.quiet) ⊎ (m.phase ≡ ActivationPhase.blocked)
  pub kept : (m.phase ≡ ActivationPhase.quiet) ⊎ (m.pending ≡ some wake)

-- A machine whose mail is to be woken for.
pub record Due (wake : WakeMetadata) (m : ActivationMachine) : Type 0 where
  pub sound : IsSound m
  pub phase : m.phase ≡ ActivationPhase.pending
  pub mail : m.pending ≡ some wake

abbrev Fine : WakeMetadata → ActivationMachine → Flow → Type 0
Fine wake m (continues m' next calls) =
    (next ≡ wake)
    × Due wake m'
    × (m'.retry_attempt ≡ m.retry_attempt + 1)
    × (m'.policy ≡ m.policy)
    × (d : Duration) × (calls ≡ starts wake ∷ sleeps d ∷ [])
Fine wake m (returns m' b calls) =
    Left wake b m' × IsFor wake calls × (count_starts calls ≡ 1) × (m'.policy ≡ m.policy)

-- A machine that is due, by its fields.
abbrev due_machine : ActivationPolicy → WakeMetadata → Bool → ℕ → ActivationMachine
due_machine policy wake needed attempt = record {
  policy = policy;
  phase = ActivationPhase.pending;
  pending = some wake;
  reconcile_needed = needed;
  retry_attempt = attempt;
}

module _ (policy : ActivationPolicy) (wake : WakeMetadata) (needed : Bool) (attempt : ℕ) where
  failed-Fine :
      (sample : Option ℕ) (waited : Awaited (Unit {0}))
      (completed : Awaited (Result HostFailure (Unit {0})))
      → IsSound (due_machine policy wake needed attempt)
      → Fine wake (due_machine policy wake needed attempt) (
          drive_round (due_machine policy wake needed attempt) wake (record {
            started = answered (err HostFailure.retryable_before_start);
            sample = sample;
            waited = waited;
            completed = completed;
          }))
  unfolding drive_round count_starts
  failed-Fine sample cancelled completed s =
      elim (Bool-cases (leb policy.maximum_attempts (saturating_suc attempt))) [
        | inl over ↦ rw over (ground (arith, attempts_positive policy))
        | inr more ↦ rw more (ground (arith, attempts_positive policy))
      ]
  failed-Fine sample (answered _) completed s =
      elim (Bool-cases (leb policy.maximum_attempts (saturating_suc attempt))) [
        | inl over ↦ rw over (ground (arith, attempts_positive policy))
        | inr more ↦ rw more (
          refl,
          ground (arith, attempts_positive policy),
          ground (arith, attempts_positive policy),
          refl,
          jitter_delay (retry_delay policy (saturating_suc attempt)) sample,
          refl,
        )
      ]

  round-Fine :
      (started : Awaited (Result HostFailure (Unit {0}))) (sample : Option ℕ)
      (waited : Awaited (Unit {0})) (completed : Awaited (Result HostFailure (Unit {0})))
      → IsSound (due_machine policy wake needed attempt)
      → Fine wake (due_machine policy wake needed attempt) (
          drive_round
            (due_machine policy wake needed attempt)
            wake
            (record { started = started; sample = sample; waited = waited; completed = completed }))
  unfolding drive_round count_starts
  round-Fine cancelled sample waited completed s = ground (arith, attempts_positive policy)
  round-Fine (answered (ok _)) sample waited cancelled s = ground (arith, attempts_positive policy)
  round-Fine (answered (ok _)) sample waited (answered (ok _)) s =
      ground (arith, attempts_positive policy)
  round-Fine (answered (ok _)) sample waited (answered (err _)) s =
      ground (arith, attempts_positive policy)
  round-Fine (answered (err HostFailure.retryable_before_start)) sample waited completed s =
      failed-Fine sample waited completed s
  round-Fine (answered (err HostFailure.outcome_unknown)) sample waited completed s =
      ground (arith, attempts_positive policy)
  round-Fine (answered (err HostFailure.permanent)) sample waited completed s =
      ground (arith, attempts_positive policy)

drive_round-Fine :
    (m : ActivationMachine) (wake : WakeMetadata) (round : Round)
    → Due wake m
    → Fine wake m (drive_round m wake round)
drive_round-Fine m wake round h =
    let e : due_machine m.policy wake m.reconcile_needed m.retry_attempt ≡ m = ground arith in
    subst (λ (x : ActivationMachine). Fine wake x (drive_round x wake round)) e
      (round-Fine m.policy wake m.reconcile_needed m.retry_attempt round.started round.sample
        round.waited round.completed (subst (λ (x : ActivationMachine). IsSound x) (sym e) h.sound))

-- How `drive_wake` leaves a machine that it was called on.
pub record Driven (wake : WakeMetadata) (m : ActivationMachine) (d : Drive) : Type 0 where
  pub stopped : Bool
  pub answers : d.answer ≡ some stopped
  pub left : Left wake stopped d.machine
  pub only : IsFor wake d.calls
  pub some_start : 1 ≤ count_starts d.calls
  pub few : count_starts d.calls + m.retry_attempt ≤ m.policy.maximum_attempts
  pub policy : d.machine.policy ≡ m.policy

flow_on-Driven :
    (wake : WakeMetadata) (m : ActivationMachine) (next : ActivationMachine → WakeMetadata → Drive)
    (flow : Flow)
    → m.retry_attempt < m.policy.maximum_attempts
    → Fine wake m flow
    → ((m' : ActivationMachine)
        → Due wake m'
        → m'.retry_attempt ≡ m.retry_attempt + 1
        → m'.policy ≡ m.policy
        → Driven wake m' (next m' wake))
    → Driven wake m (flow_on next flow)
unfolding count_starts
flow_on-Driven wake m next (continues m' w calls) l (same, due, counted, kept, delay, shown) ih =
    let d = ih m' due counted kept in
    let few = d.few in
    rw (same, shown)
      (record {
        stopped = d.stopped;
        answers = d.answers;
        left = d.left;
        only = (refl, d.only);
        some_start = omega arith;
        few = ground (arith, few);
        policy = d.policy ∙ kept;
      })
flow_on-Driven wake m next (returns m' b calls) l (left, only, one, kept) ih = record {
  stopped = b;
  answers = refl;
  left = left;
  only = only;
  some_start = omega arith;
  few = omega arith;
  policy = kept;
}

-- Called for a wake that is due, on a machine that is sound, with at least as many rounds at hand as
-- attempts are left: `drive_wake` answers. It starts host turns only for that wake, at least one and no more
-- of them than attempts are left, and calls nothing behind the await of a turn that the host accepted. It
-- leaves the machine sound, and quiet or blocked unless it was cancelled; the mail is dropped only if
-- the machine is quiet.
pub drive_wake-Driven :
    (rounds : List Round) (m : ActivationMachine) (wake : WakeMetadata)
    → Due wake m
    → m.policy.maximum_attempts ≤ length rounds + m.retry_attempt
    → Driven wake m (drive_wake rounds m wake)
unfolding drive_wake
drive_wake-Driven [] m wake due h =
    let l = due.sound.live_attempts (rw due.phase refl) in absurd (omega arith)
drive_wake-Driven (round ∷ rounds) m wake due h =
    flow_on-Driven wake m (drive_wake rounds) (drive_round m wake round)
      (ground (arith, due.sound.live_attempts)) (drive_round-Fine m wake round due)
      (λ m' due' counted kept. drive_wake-Driven rounds m' wake due' (ground arith))
