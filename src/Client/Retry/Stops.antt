-- ===== src/Client/Retry/Stops.antt =====
-- How the loop of `execute_inner` in crates/psst-client/src/lib.rs ends.
use psst.Prelude.{
  ℕ, zero, suc, ◌+◌, ◌*◌, ◌<◌, ◌≤◌, ◌≡◌, ◌⊎◌, inl, inr, refl, min, true, false, Option, some, List,
  [], ◌∷◌, ◌++◌, arith, eqb, Bool-cases, subst, sym, eqb_iff,
}
use psst.Core.Error.{Result, ok, err}
use psst.Core.Time.{Duration}
use psst.Client.Retry.Causes.{came_on_the_way, MayAsk, transport_retryable-way, asks-again}
use psst.Client.Retry.{
  RetryPolicy, RetryClass, ClientConfig, Error, Response, ErrorBody, Try, Call, Pass, Execution,
  busy, fails, responds, sends, sleeps, returns, retries, check_config, is_retryable_api,
  is_retryable_transport, is_retry_status, answered, decode, attempt_once, attempts_of, calls_of,
  passed, attempt_from, execute_inner,
}

-- How many attempts an operation may have: one that may not be repeated has one, any other as many
-- as the policy says.
abbrev pub allowed : RetryPolicy → RetryClass → ℕ
allowed policy RetryClass.never = 1
allowed policy RetryClass.safe = policy.max_attempts
allowed policy RetryClass.deduplicated = policy.max_attempts

attempts_of-allowed :
    (policy : RetryPolicy) (class : RetryClass) → attempts_of policy class ≡ allowed policy class
attempts_of-allowed policy RetryClass.never = refl
attempts_of-allowed policy RetryClass.safe = refl
attempts_of-allowed policy RetryClass.deduplicated = refl

abbrev pub count_sends : List Call → ℕ
count_sends [] = 0
count_sends (sends ∷ calls) = count_sends calls + 1
count_sends (sleeps d ∷ calls) = count_sends calls

-- Every wait is at most the bound.
abbrev pub Within : Duration → List Call → Type 0
Within bound [] = Unit
Within bound (sends ∷ calls) = Within bound calls
Within bound (sleeps d ∷ calls) = (d ≤ bound) × Within bound calls

answered-retries :
    {R : Type 0} (attempt attempts status : ℕ) (result : Result Error R)
    → answered attempt attempts status result ≡ retries
    → ((is_retryable_transport result ≡ true)
        ⊎ ((is_retryable_api result ≡ true) × (is_retry_status status ≡ true)))
      × (eqb attempt attempts ≡ false)
answered-retries attempt attempts status result h =
    elim (Bool-cases (is_retryable_transport result)) [
      | inl t ↦ (inl t, ground arith)
      | inr f ↦ (inr (ground arith, ground arith), ground arith)
    ]

attempts_of-pos :
    (config : ClientConfig) (class : RetryClass)
    → check_config config ≡ ok tt
    → 1 ≤ attempts_of config.retry class
unfolding check_config
attempts_of-pos config RetryClass.never h = omega arith
attempts_of-pos config RetryClass.safe h = ground arith
attempts_of-pos config RetryClass.deduplicated h = ground arith

backoff-ordered :
    (config : ClientConfig)
    → check_config config ≡ ok tt
    → config.retry.initial_backoff ≤ config.retry.max_backoff
unfolding check_config
backoff-ordered config h = ground arith

calls_of-le : (t : Try) → count_sends (calls_of t) ≤ 1
calls_of-le busy = omega arith
calls_of-le (fails e) = omega arith
calls_of-le (responds r) = omega arith

calls_of-Within : (bound : Duration) (t : Try) → Within bound (calls_of t)
calls_of-Within bound busy = tt
calls_of-Within bound (fails e) = tt
calls_of-Within bound (responds r) = tt

calls-le :
    (t : Try) (d : Duration) (calls : List Call)
    → count_sends (calls_of t ++ sleeps d ∷ calls) ≤ count_sends calls + 1
calls-le busy d calls = omega arith
calls-le (fails e) d calls = omega arith
calls-le (responds r) d calls = omega arith

calls-Within :
    (bound : Duration) (t : Try) (d : Duration) (calls : List Call)
    → d ≤ bound
    → Within bound calls
    → Within bound (calls_of t ++ sleeps d ∷ calls)
calls-Within bound busy d calls h w = (h, w)
calls-Within bound (fails e) d calls h w = (h, w)
calls-Within bound (responds r) d calls h w = (h, w)

answered-ok :
    {R : Type 0} (attempt attempts status : ℕ) (result : Result Error R) (value : R)
    → answered attempt attempts status result ≡ returns (ok value)
    → result ≡ ok value
answered-ok attempt attempts status (ok v) value h = ground arith
answered-ok attempt attempts status (err e) value h = absurd (ground arith)

module _ {R : Type 0} (from_slice : List ℕ → Option R)
    (validate_response : R → Result Error (Unit {0})) (envelope : List ℕ → Option ErrorBody) where
  -- The attempt failed in a way that the loop may repeat: on the way, by a time-out, or by an error of
  -- the API that is marked as retryable and has one of three statuses.
  abbrev pub MayRepeat : Try → Type 0
  MayRepeat busy = ⊥
  MayRepeat (fails e) = came_on_the_way e ≡ true
  MayRepeat (responds r) = MayAsk r.status (decode from_slice validate_response envelope r)

  attempt_once-MayRepeat :
      (attempt attempts : ℕ) (t : Try)
      → attempt_once from_slice validate_response envelope attempt attempts t ≡ retries
      → MayRepeat t × (eqb attempt attempts ≡ false)
  unfolding attempt_once
  attempt_once-MayRepeat attempt attempts busy h = absurd (cc)
  attempt_once-MayRepeat attempt attempts (fails e) h = ground (arith, transport_retryable-way e)
  attempt_once-MayRepeat attempt attempts (responds r) h =
      let result = decode from_slice validate_response envelope r in
      let (again, early) = answered-retries attempt attempts r.status result h in
      (asks-again r.status result again, early)

  attempt_once-ok :
      (attempt attempts : ℕ) (t : Try) (value : R)
      → attempt_once from_slice validate_response envelope attempt attempts t ≡ returns (ok value)
      → (r : Response) × (t ≡ responds r)
        × (decode from_slice validate_response envelope r ≡ ok value)
  unfolding attempt_once
  attempt_once-ok attempt attempts busy value h = absurd (cc)
  attempt_once-ok attempt attempts (fails e) value h = absurd (ground arith)
  attempt_once-ok attempt attempts (responds r) value h = (
    r,
    refl,
    answered-ok attempt attempts r.status (decode from_slice validate_response envelope r) value h,
  )

  -- How the loop stops, from an attempt on.
  pub record Stops (tries : ℕ → Try) (attempts first : ℕ) (bound : Duration) (x : Execution R)
      : Type 0 where
    pub last : ℕ
    pub from_first : first ≤ last
    pub to_attempts : last ≤ attempts
    pub answer : Result Error R
    pub answers : x.result ≡ some answer
    pub repeated : (i : ℕ) → first ≤ i → i < last → MayRepeat (tries i)
    pub stopped :
        attempt_once from_slice validate_response envelope last attempts (tries last)
        ≡ returns answer
    pub read :
        (value : R)
        → answer ≡ ok value
        → (r : Response) × (tries last ≡ responds r)
          × (decode from_slice validate_response envelope r ≡ ok value)
    pub few : count_sends x.calls + first ≤ last + 1
    pub waits : Within bound x.calls

  passed-Stops :
      (tries : ℕ → Try) (attempts first : ℕ) (bound backoff : Duration) (p : Pass R)
      (rest : Execution R)
      → first ≤ attempts
      → backoff ≤ bound
      → attempt_once from_slice validate_response envelope first attempts (tries first) ≡ p
      → (first + 1 ≤ attempts → Stops tries attempts (first + 1) bound rest)
      → Stops tries attempts first bound (passed p (calls_of (tries first)) backoff rest)
  passed-Stops tries attempts first bound backoff (returns r) rest l w h ih = record {
    last = first;
    from_first = omega arith;
    to_attempts = l;
    answer = r;
    answers = refl;
    repeated = λ i a b. absurd (omega arith);
    stopped = h;
    read = λ value e. attempt_once-ok first attempts (tries first) value (rw (← e) h);
    few = omega (arith, calls_of-le (tries first));
    waits = calls_of-Within bound (tries first);
  }
  passed-Stops tries attempts first bound backoff retries rest l w h ih =
      let (may, early) = attempt_once-MayRepeat first attempts (tries first) h in
      let s = ih (ground arith) in
      record {
        last = s.last;
        from_first = omega (arith, s.from_first);
        to_attempts = s.to_attempts;
        answer = s.answer;
        answers = s.answers;
        repeated = λ i a b. elim (Bool-cases (eqb i first)) [
          | inl same ↦ subst (λ (j : ℕ). MayRepeat (tries j)) (sym ((eqb_iff i first).0 same)) may
          | inr other ↦ s.repeated i (ground arith) b
        ];
        stopped = s.stopped;
        read = s.read;
        few = omega (arith, s.few, calls-le (tries first) backoff rest.calls);
        waits = calls-Within bound (tries first) backoff rest.calls w s.waits;
      }

  attempt_from-Stops :
      (tries : ℕ → Try) (policy : RetryPolicy) (attempts left first : ℕ) (backoff : Duration)
      → attempts + 1 ≡ first + left
      → first ≤ attempts
      → backoff ≤ policy.max_backoff
      → Stops tries attempts first policy.max_backoff (
          attempt_from from_slice validate_response envelope tries policy attempts left first
            backoff)
  unfolding attempt_from
  attempt_from-Stops tries policy attempts zero first backoff e l w = absurd (omega arith)
  attempt_from-Stops tries policy attempts (suc left) first backoff e l w =
      passed-Stops tries attempts first policy.max_backoff backoff
        (attempt_once from_slice validate_response envelope first attempts (tries first)) _ l w refl
        (λ more.
          attempt_from-Stops tries policy attempts left (first + 1)
            (min (backoff * 2) policy.max_backoff) (omega arith) more (omega arith))

  -- Under a configuration that the client accepts, the loop answers, whatever the network answers. It
  -- stops at one of the attempts that are allowed, which is one alone if the operation may not be
  -- repeated and `max_attempts` for any other, and answers as that attempt does; every attempt before
  -- failed in a way that it may repeat: on the way, by a time-out, or by an error of the API that is
  -- marked as retryable and has status 429, 500 or 503. A value that it answers is read from the
  -- response to that attempt. No more requests are sent than attempts are made, and no wait is longer
  -- than the maximum.
  pub execute_inner-Stops :
      (config : ClientConfig) (tries : ℕ → Try) (class : RetryClass)
      → check_config config ≡ ok tt
      → Stops tries
          (allowed config.retry class)
          1
          config.retry.max_backoff
          (execute_inner from_slice validate_response envelope tries config.retry class)
  unfolding execute_inner
  execute_inner-Stops config tries class h =
      let attempts = attempts_of config.retry class in
      subst
        (λ (n : ℕ).
          Stops tries n 1 config.retry.max_backoff
            (execute_inner from_slice validate_response envelope tries config.retry class))
        (attempts_of-allowed config.retry class)
        (attempt_from-Stops tries config.retry attempts attempts 1 config.retry.initial_backoff
          (omega arith) (attempts_of-pos config class h) (backoff-ordered config h))
