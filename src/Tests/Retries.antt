-- ===== src/Tests/Retries.antt =====
-- The loop of `execute_inner` in crates/psst-client/src/lib.rs: a time-out, then an answer.
use psst.Prelude.{ℕ, zero, suc, ◌≡◌, refl, true, Option, none, some, List, [], ◌∷◌}
use psst.Core.Error.{Result, ok}
use psst.Client.Retry.{
  RetryClass, ClientConfig, Error, Response, ErrorBody, Try, fails, responds, sends, sleeps, chunk,
  check_config, execute_inner,
}
use psst.Client.Retry.Stops.{Stops, allowed, execute_inner-Stops}

abbrev config : ClientConfig
config = record {
  connect_timeout = 3_000_000_000;
  request_timeout = 10_000_000_000;
  long_poll_margin = 5_000_000_000;
  retry = record { max_attempts = 3; initial_backoff = 50_000_000; max_backoff = 500_000_000 };
  max_in_flight = 32;
}

-- A value is one byte.
abbrev from_slice : List ℕ → Option ℕ
from_slice [] = none
from_slice (b ∷ bs) = some b

abbrev validate_response : ℕ → Result Error (Unit {0})
validate_response value = ok tt

abbrev envelope : List ℕ → Option ErrorBody
envelope bytes = none

abbrev answer : Response
answer = record {
  status = 200;
  is_json = true;
  content_length = some 1;
  body = chunk (7 ∷ []) ∷ [];
}

abbrev tries : ℕ → Try
tries zero = fails Error.timeout
tries (suc zero) = fails Error.timeout
tries (suc (suc n)) = responds answer

config-checks : check_config config ≡ ok tt
unfolding check_config
config-checks = refl

execute_inner-Stops_example :
    Stops from_slice validate_response envelope tries
      (allowed config.retry RetryClass.deduplicated)
      1
      500_000_000
      (execute_inner from_slice validate_response envelope tries config.retry
        RetryClass.deduplicated)
execute_inner-Stops_example =
    execute_inner-Stops from_slice validate_response envelope config tries RetryClass.deduplicated
      config-checks

execute_inner-again :
    execute_inner from_slice validate_response envelope tries config.retry RetryClass.deduplicated
    ≡ record { result = some (ok 7); calls = sends ∷ sleeps 50_000_000 ∷ sends ∷ [] }
unfolding execute_inner
execute_inner-again = refl
