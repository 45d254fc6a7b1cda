-- ===== src/Core/Error.antt =====
-- crates/psst-core/src/error.rs: error codes and domain errors.
use psst.Prelude.{String, ◌≡◌, ◌⊎◌, refl, inl, inr}

pub data ErrorCode : Type 0 where
  invalid_request not_found squad_archived not_member name_in_use lease_expired : ErrorCode
  recipient_not_found idempotency_conflict payload_too_large rate_limited : ErrorCode
  database_busy internal_error invalid_state_transition : ErrorCode

unfoldable pub as_str : ErrorCode → String
as_str ErrorCode.invalid_request = "invalid_request"
as_str ErrorCode.not_found = "not_found"
as_str ErrorCode.squad_archived = "squad_archived"
as_str ErrorCode.not_member = "not_member"
as_str ErrorCode.name_in_use = "name_in_use"
as_str ErrorCode.lease_expired = "lease_expired"
as_str ErrorCode.recipient_not_found = "recipient_not_found"
as_str ErrorCode.idempotency_conflict = "idempotency_conflict"
as_str ErrorCode.payload_too_large = "payload_too_large"
as_str ErrorCode.rate_limited = "rate_limited"
as_str ErrorCode.database_busy = "database_busy"
as_str ErrorCode.internal_error = "internal_error"
as_str ErrorCode.invalid_state_transition = "invalid_state_transition"

pub record InvalidValue : Type 0 where
  pub field : String
  pub reason : String

-- `InvalidValue::new`.
abbrev pub new_invalid : String → String → InvalidValue
new_invalid f r = record { field = f; reason = r }

pub data DomainError : Type 0 where
  invalid_value : InvalidValue → DomainError
  invalid_state_transition : String → String → DomainError
  lease_expired : DomainError
  idempotency_conflict : String → DomainError

unfoldable pub code : DomainError → ErrorCode
code (DomainError.invalid_value _) = ErrorCode.invalid_request
code (DomainError.invalid_state_transition _ _) = ErrorCode.invalid_state_transition
code DomainError.lease_expired = ErrorCode.lease_expired
code (DomainError.idempotency_conflict _) = ErrorCode.idempotency_conflict

-- `Result<A, E>`.
pub data Result {ℓ κ} (E : Type κ) (A : Type ℓ) : Type (ℓ ⊔ κ) where
  ok : A → Result E A
  err : E → Result E A

infixl 5 ◌>>=◌ ◌>>◌
abbrev pub ◌>>=◌ {ℓ κ μ} :
    {E : Type κ} {A : Type ℓ} {B : Type μ} → Result E A → (A → Result E B) → Result E B
ok a >>= f = f a
err e >>= f = err e

abbrev pub ◌>>◌ {ℓ κ μ} :
    {E : Type κ} {A : Type ℓ} {B : Type μ} → Result E A → Result E B → Result E B
m >> k = m >>= λ _. k

abbrev pub map_err {ℓ κ μ} :
    {E : Type κ} {F : Type μ} {A : Type ℓ} → (E → F) → Result E A → Result F A
map_err f (ok a) = ok a
map_err f (err e) = err (f e)

pub Result-cases {ℓ κ} :
    {E : Type κ} {A : Type ℓ} (r : Result E A) → ((e : E) × (r ≡ err e)) ⊎ ((a : A) × (r ≡ ok a))
Result-cases (ok a) = inr (a, refl)
Result-cases (err e) = inl (e, refl)
