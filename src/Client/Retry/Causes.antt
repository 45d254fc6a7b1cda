-- ===== src/Client/Retry/Causes.antt =====
-- What the loop of `execute_inner` in crates/psst-client/src/lib.rs may repeat a request for.
use psst.Prelude.{ℕ, ◌≡◌, ◌⊎◌, inl, inr, refl, Bool, ◌||◌, true, false, arith, eqb_iff}
use psst.Core.Error.{Result, ok, err}
use psst.Client.Retry.{
  Error, transport_retryable, is_retryable_api, is_retryable_transport, is_retry_status,
}

-- The error came up on the way: a time-out, or one of the transport in one of these five.
abbrev pub came_on_the_way : Error → Bool
came_on_the_way Error.timeout = true
came_on_the_way (Error.transport e) =
    e.is_timeout || e.is_connect || e.is_request || e.is_body || e.is_decode
came_on_the_way _ = false

-- The API marks the error as retryable.
abbrev pub is_marked : Error → Bool
is_marked (Error.api _ _ retryable) = retryable
is_marked _ = false

-- A response with an error that the loop may repeat the request for.
abbrev pub MayAsk : {R : Type 0} → ℕ → Result Error R → Type 0
MayAsk status result =
    (e : Error) × (result ≡ err e)
    × ((came_on_the_way e ≡ true)
        ⊎ ((is_marked e ≡ true) × ((status ≡ 429) ⊎ ((status ≡ 500) ⊎ (status ≡ 503)))))

pub transport_retryable-way : (e : Error) → transport_retryable e ≡ true → came_on_the_way e ≡ true
unfolding transport_retryable
transport_retryable-way Error.timeout h = refl
transport_retryable-way (Error.transport t) h = h
transport_retryable-way e h = ground arith

marked_lem : (R : Type 0) (e : Error) → is_retryable_api {R = R} (err e) ≡ true → is_marked e ≡ true
marked_lem R (Error.api _ _ retryable) h = h
marked_lem R e h = ground arith

status_lem :
    (status : ℕ)
    → is_retry_status status ≡ true
    → (status ≡ 429) ⊎ ((status ≡ 500) ⊎ (status ≡ 503))
status_lem status h = ground (arith, eqb_iff status 429, eqb_iff status 500, eqb_iff status 503)

pub asks-again :
    {R : Type 0} (status : ℕ) (result : Result Error R)
    → (is_retryable_transport result ≡ true)
      ⊎ ((is_retryable_api result ≡ true) × (is_retry_status status ≡ true))
    → MayAsk status result
asks-again status (ok v) h = absurd (ground arith)
asks-again status (err e) (inl h) = (e, refl, inl (transport_retryable-way e h))
asks-again {R} status (err e) (inr h) = (e, refl, inr (marked_lem R e h.0, status_lem status h.1))
