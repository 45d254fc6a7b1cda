-- ===== src/Application/Activation/Delays.antt =====
-- The delays of crates/psst-application/src/activation.rs.
use psst.Prelude.{
  ℕ, zero, suc, ◌+◌, ◌-◌, ◌*◌, ◌/◌, ◌%◌, ◌^◌, ◌<◌, ◌≤◌, ◌≡◌, refl, min, Option, none, some, arith,
  ◌∙◌, ap,
}
use psst.Core.Error.{ok}
use psst.Core.Time.{Duration}
use psst.Application.Activation.{
  ActivationMachine, ActivationPolicy, retry_after, validate, checked_mul, power_of_two,
  retry_delay, wake_retryable_failure,
}
use psst.Application.Activation.Invariant.{IsSound}
use psst.Application.Activation.Drive.{jitter_delay}

-- The power is small, so the facts about it go through its values.
power_small : (e : ℕ) → e ≤ 7 → (1 ≤ power_of_two e) × (power_of_two e ≤ 128)
unfolding power_of_two
power_small zero h = omega arith
power_small (suc zero) h = omega arith
power_small (suc (suc zero)) h = omega arith
power_small (suc (suc (suc zero))) h = omega arith
power_small (suc (suc (suc (suc zero)))) h = omega arith
power_small (suc (suc (suc (suc (suc zero))))) h = omega arith
power_small (suc (suc (suc (suc (suc (suc zero)))))) h = omega arith
power_small (suc (suc (suc (suc (suc (suc (suc zero))))))) h = omega arith
power_small (suc (suc (suc (suc (suc (suc (suc (suc e)))))))) h = absurd (omega arith)

power_suc : (e : ℕ) → e ≤ 6 → power_of_two (suc e) ≡ 2 * power_of_two e
unfolding power_of_two
power_suc zero h = omega arith
power_suc (suc zero) h = omega arith
power_suc (suc (suc zero)) h = omega arith
power_suc (suc (suc (suc zero))) h = omega arith
power_suc (suc (suc (suc (suc zero)))) h = omega arith
power_suc (suc (suc (suc (suc (suc zero))))) h = omega arith
power_suc (suc (suc (suc (suc (suc (suc zero)))))) h = omega arith
power_suc (suc (suc (suc (suc (suc (suc (suc e))))))) h = absurd (omega arith)

power_mono : (e : ℕ) → e ≤ 7 → power_of_two (e - 1) ≤ power_of_two e
power_mono zero h = omega arith
power_mono (suc e) h =
    let same : suc e - 1 ≡ e = omega arith in rw same (omega (arith, power_suc e (omega arith)))

times_mono : (k a b : ℕ) → a ≤ b → k * a ≤ k * b
times_mono k a b h = grind arith

-- No product overflows.
checked_mul_lem : (d k : ℕ) → d ≤ 300_000_000_000 → k ≤ 128 → checked_mul d k ≡ some (d * k)
unfolding checked_mul
checked_mul_lem d k h l = let e : d * k ≤ 300_000_000_000 * 128 = grind arith in ground arith

pub retry_delay_lem :
    (p : ActivationPolicy) (n : ℕ)
    → validate p ≡ ok p
    → n ≤ 8
    → retry_delay p n ≡ min (p.initial_backoff * power_of_two (n - 1)) p.maximum_backoff
unfolding retry_delay validate
retry_delay_lem p n v h =
    let bounded : p.initial_backoff ≤ 300_000_000_000 = ground arith in
    let (_, small) = power_small (n - 1) (omega arith) in
    rw (checked_mul_lem p.initial_backoff (power_of_two (n - 1)) bounded small) refl

mod_small : (s w : ℕ) → s % (w + 1) ≤ w
mod_small s w = grind arith

-- The sample moves the delay within its upper half.
within_half :
    (d c r : ℕ)
    → c ≡ d / 1_000_000
    → r ≤ c - c / 2
    → ((c / 2 + r) * 1_000_000 ≤ d) × (d < 2 * ((c / 2 + r) * 1_000_000) + 2_000_000)
within_half d c r e h = omega arith

pub jitter_delay_bounds :
    (d : Duration) (sample : Option ℕ)
    → d ≤ 300_000_000_000
    → (jitter_delay d sample ≤ d) × (d < 2 * jitter_delay d sample + 2_000_000)
unfolding jitter_delay
jitter_delay_bounds d none h = omega arith
jitter_delay_bounds d (some s) h =
    let whole : min (d / 1_000_000) (2 ^ 64 - 1) ≡ d / 1_000_000 = omega arith in
    let c : ℕ = d / 1_000_000 in
    let r : ℕ = s % (c - c / 2 + 1) in
    rw whole (ground (arith, within_half d c r refl, mod_small s (c - c / 2)))

policy_bounds :
    (p : ActivationPolicy)
    → validate p ≡ ok p
    → (0 < p.initial_backoff)
      × (p.initial_backoff ≤ p.maximum_backoff)
      × (p.maximum_backoff ≤ 300_000_000_000)
      × (p.maximum_attempts ≤ 8)
unfolding validate
policy_bounds p v = ground arith

retried :
    (m m' : ActivationMachine) (delay : Duration)
    → validate m.policy ≡ ok m.policy
    → wake_retryable_failure m ≡ (m', ok (retry_after delay))
    → (m'.retry_attempt ≡ m.retry_attempt + 1)
      × (m'.retry_attempt < m.policy.maximum_attempts)
      × (delay ≡ retry_delay m.policy (m.retry_attempt + 1))
unfolding wake_retryable_failure
retried m m' delay v h = ground (arith, policy_bounds m.policy)

-- A failure that the machine retries is counted, and at most the seventh; it is answered with a
-- delay of the initial backoff doubled for each earlier failure, up to the maximum: at least the
-- initial backoff, at most five minutes, and never less than the delay of the failure before. What
-- the loop then waits, with any random bytes or none, is at most that delay and, but for two
-- milliseconds, at least half of it.
pub wake_retryable_failure-delay :
    (m m' : ActivationMachine) (delay : Duration) (sample : Option ℕ)
    → IsSound m
    → wake_retryable_failure m ≡ (m', ok (retry_after delay))
    → (m'.retry_attempt ≡ m.retry_attempt + 1)
      × (m'.retry_attempt ≤ 7)
      × (delay
          ≡ min (m.policy.initial_backoff * power_of_two m.retry_attempt) m.policy.maximum_backoff)
      × (m.policy.initial_backoff ≤ delay)
      × (delay ≤ 300_000_000_000)
      × (retry_delay m.policy m.retry_attempt ≤ delay)
      × (jitter_delay delay sample ≤ delay)
      × (delay < 2 * jitter_delay delay sample + 2_000_000)
wake_retryable_failure-delay m m' delay sample s h =
    let p : ActivationPolicy = m.policy in
    let n : ℕ = m.retry_attempt in
    let (_, ordered, longest, few) = policy_bounds p s.bounds in
    let (counted, below, answered) = retried m m' delay s.bounds h in
    let same : n + 1 - 1 ≡ n = omega arith in
    let now : delay ≡ min (p.initial_backoff * power_of_two n) p.maximum_backoff =
      answered
      ∙ retry_delay_lem p (n + 1) s.bounds (omega arith)
      ∙ ap (λ (e : ℕ). min (p.initial_backoff * power_of_two e) p.maximum_backoff) same in
    let before = retry_delay_lem p n s.bounds (omega arith) in
    let positive =
      times_mono p.initial_backoff 1 (power_of_two n) (power_small n (omega arith)).0 in
    let grown =
      times_mono p.initial_backoff (power_of_two (n - 1)) (power_of_two n)
        (power_mono n (omega arith)) in
    let short : delay ≤ 300_000_000_000 = omega arith in
    let (most, least) = jitter_delay_bounds delay sample short in
    (counted, omega arith, now, omega arith, short, omega arith, most, least)
