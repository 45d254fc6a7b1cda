-- ===== src/Client/Retry.antt =====
-- crates/psst-client/src/lib.rs: the retry policy, decoding a response and the loop of `execute_inner`.
-- What the network answers to an attempt is an argument: an error of `reqwest` by the kinds that the
-- client asks for, or a response by its status, headers and body; reading JSON is an argument too.
pub mod Causes
pub mod Stops
use psst.Prelude.{
  ℕ, zero, suc, ◌+◌, ◌-◌, ◌*◌, ◌^◌, min, Bool, true, false, not, ◌&&◌, ◌||◌, Option, none, some,
  List, [], ◌∷◌, ◌++◌, length, ltb, leb, eqb, is_some_and, if◌then◌else◌,
}
use psst.Core.Error.{Result, ok, err, ◌>>=◌, ◌>>◌}
use psst.Core.Time.{Duration}
use psst.Protocol.Error.{ApiErrorCode, http_status}

abbrev pub max_response_bytes : ℕ
max_response_bytes = 1024 * 1024

pub record RetryPolicy : Type 0 where
  pub max_attempts : ℕ
  pub initial_backoff : Duration
  pub max_backoff : Duration

pub record ClientConfig : Type 0 where
  pub connect_timeout : Duration
  pub request_timeout : Duration
  pub long_poll_margin : Duration
  pub retry : RetryPolicy
  pub max_in_flight : ℕ

pub data RetryClass : Type 0 where
  never safe deduplicated : RetryClass

-- A `reqwest::Error`, by what the client asks of it.
pub record TransportError : Type 0 where
  pub is_timeout : Bool
  pub is_connect : Bool
  pub is_request : Bool
  pub is_body : Bool
  pub is_decode : Bool

pub data Error : Type 0 where
  invalid_base_url invalid_configuration invalid_request malformed_credential : Error
  transport : TransportError → Error
  timeout outcome_unknown : Error
  api : ℕ → ApiErrorCode → Bool → Error
  malformed_response : ℕ → Error
  response_too_large : Error
  unexpected_http : ℕ → Error
  client_busy : Error
  retry_exhausted : ℕ → Error → Error

-- The bounds that `Client::new_with_sleeper` checks first.
unfoldable pub check_config : ClientConfig → Result Error (Unit {0})
check_config config =
    if eqb config.connect_timeout 0
      || eqb config.request_timeout 0
      || eqb config.retry.max_attempts 0
      || ltb 10 config.retry.max_attempts
      || eqb config.max_in_flight 0
      || ltb 1024 config.max_in_flight
      || ltb config.retry.max_backoff config.retry.initial_backoff
    then err Error.invalid_configuration
    else ok tt

unfoldable pub transport_retryable : Error → Bool
transport_retryable Error.timeout = true
transport_retryable (Error.transport e) =
    e.is_timeout || e.is_connect || e.is_request || e.is_body || e.is_decode
transport_retryable _ = false

-- A part of the body, or the error of the transport that ends it.
pub data Chunk : Type 0 where
  chunk : List ℕ → Chunk
  broken : TransportError → Chunk

pub record Response : Type 0 where
  pub status : ℕ
  -- The Content-Type is JSON.
  pub is_json : Bool
  pub content_length : Option ℕ
  pub body : List Chunk

-- `error.error` of an `ErrorEnvelope`, with the result of its `validate`.
pub record ErrorBody : Type 0 where
  pub code : ApiErrorCode
  pub retryable : Bool
  pub is_valid : Bool

-- The loop that gathers the body, from the bytes that were read.
unfoldable pub read_body : List ℕ → List Chunk → Result Error (List ℕ)
read_body bytes [] = ok bytes
read_body bytes (broken e ∷ rest) = err (Error.transport e)
read_body bytes (chunk more ∷ rest) =
    let onward = read_body (bytes ++ more) rest in
    if ltb max_response_bytes (length bytes + length more)
    then err Error.response_too_large
    else onward

-- What the loop meets at an attempt: no permit is free, the request fails, or it is answered.
pub data Try : Type 0 where
  busy : Try
  fails : Error → Try
  responds : Response → Try

-- What the loop does.
pub data Call : Type 0 where
  sends : Call
  sleeps : Duration → Call

-- A pass of the loop returns, or goes on to the next attempt.
pub data Pass {ℓ} (R : Type ℓ) : Type ℓ where
  returns : Result Error R → Pass R
  retries : Pass R

abbrev pub is_success : ℕ → Bool
is_success status = leb 200 status && ltb status 300

-- TOO_MANY_REQUESTS, SERVICE_UNAVAILABLE and INTERNAL_SERVER_ERROR.
abbrev pub is_retry_status : ℕ → Bool
is_retry_status status = eqb status 429 || eqb status 503 || eqb status 500

-- What `execute_inner` answers and does; `none` is the panic behind its loop.
pub record Execution (R : Type 0) : Type 0 where
  pub result : Option (Result Error R)
  pub calls : List Call

abbrev pub calls_of : Try → List Call
calls_of busy = []
calls_of _ = sends ∷ []

abbrev pub attempts_of : RetryPolicy → RetryClass → ℕ
attempts_of policy RetryClass.never = 1
attempts_of policy _ = policy.max_attempts

module _ {R : Type 0} where
  abbrev pub passed : Pass R → List Call → Duration → Execution R → Execution R
  passed (returns r) calls backoff rest = record { result = some r; calls = calls }
  passed retries calls backoff rest = record {
    result = rest.result;
    calls = calls ++ sleeps backoff ∷ rest.calls;
  }

  abbrev pub is_retryable_api : Result Error R → Bool
  is_retryable_api (err (Error.api _ _ retryable)) = retryable
  is_retryable_api _ = false

  abbrev pub is_retryable_transport : Result Error R → Bool
  is_retryable_transport (ok _) = false
  is_retryable_transport (err e) = transport_retryable e

  -- `RetryExhausted` with the last error; a success is not retryable.
  abbrev pub exhausted : ℕ → Result Error R → Result Error R
  exhausted attempts (ok value) = ok value
  exhausted attempts (err last) = err (Error.retry_exhausted attempts last)

  abbrev pub answered : ℕ → ℕ → ℕ → Result Error R → Pass R
  answered attempt attempts status result =
      let api = is_retryable_api result in
      let retryable = api || is_retryable_transport result in
      if retryable && eqb attempt attempts && ltb 1 attempts
      then returns (exhausted attempts result)
      else if not retryable || eqb attempt attempts
      then returns result
      else if api && not (is_retry_status status)
      then returns result
      else retries

module _ {R : Type 0} (from_slice : List ℕ → Option R)
    (validate_response : R → Result Error (Unit {0})) (envelope : List ℕ → Option ErrorBody) where
  abbrev validated : ℕ → Option R → Result Error R
  validated status none = err (Error.malformed_response status)
  validated status (some value) = validate_response value >> ok value

  abbrev refused : ℕ → Option ErrorBody → Result Error R
  refused status none = err (Error.unexpected_http status)
  refused status (some e) =
      if not e.is_valid
      then err (Error.unexpected_http status)
      else if not (eqb (http_status e.code) status)
      then err (Error.unexpected_http status)
      else err (Error.api status e.code e.retryable)

  abbrev decode_bytes : ℕ → List ℕ → Result Error R
  decode_bytes status bytes =
      if is_success status
      then if not (eqb status 200)
        then err (Error.unexpected_http status)
        else validated status (from_slice bytes)
      else refused status (envelope bytes)

  unfoldable pub decode : Response → Result Error R
  unfolding read_body http_status
  decode r =
      if eqb r.status 408
      then err Error.timeout
      else if not r.is_json
      then err (Error.unexpected_http r.status)
      else if is_some_and r.content_length (λ n. ltb max_response_bytes n)
      then err Error.response_too_large
      else (read_body [] r.body >>= decode_bytes r.status)

  -- The body of the loop of `execute_inner`.
  unfoldable pub attempt_once : ℕ → ℕ → Try → Pass R
  unfolding decode transport_retryable
  attempt_once attempt attempts busy = returns (err Error.client_busy)
  attempt_once attempt attempts (fails e) =
      if eqb attempt attempts && ltb 1 attempts && transport_retryable e
      then returns (err (Error.retry_exhausted attempts e))
      else if eqb attempt attempts || not (transport_retryable e)
      then returns (err e)
      else retries
  attempt_once attempt attempts (responds r) = answered attempt attempts r.status (decode r)

  -- The loop, with the number of attempts that are left, from an attempt and its backoff.
  unfoldable pub attempt_from : (ℕ → Try) → RetryPolicy → ℕ → ℕ → ℕ → Duration → Execution R
  unfolding attempt_once
  attempt_from tries policy attempts zero attempt backoff = record { result = none; calls = [] }
  attempt_from tries policy attempts (suc left) attempt backoff =
      passed (attempt_once attempt attempts (tries attempt)) (calls_of (tries attempt)) backoff (
        attempt_from tries policy attempts left (attempt + 1)
          (min (backoff * 2) policy.max_backoff))

  -- The answers of the network, by the number of the attempt.
  unfoldable pub execute_inner : (ℕ → Try) → RetryPolicy → RetryClass → Execution R
  unfolding attempt_from
  execute_inner tries policy class =
      attempt_from tries policy (attempts_of policy class) (attempts_of policy class) 1
        policy.initial_backoff
