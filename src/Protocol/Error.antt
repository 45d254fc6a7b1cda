-- ===== src/Protocol/Error.antt =====
-- crates/psst-protocol/src/error.rs: the codes of the API and their HTTP statuses.
use psst.Prelude.{ℕ}

pub data ApiErrorCode : Type 0 where
  invalid_request not_found squad_archived not_member name_in_use lease_expired : ApiErrorCode
  recipient_not_found idempotency_conflict payload_too_large rate_limited : ApiErrorCode
  database_busy internal_error : ApiErrorCode

unfoldable pub http_status : ApiErrorCode → ℕ
http_status ApiErrorCode.invalid_request = 400
http_status ApiErrorCode.not_found = 404
http_status ApiErrorCode.recipient_not_found = 404
http_status ApiErrorCode.not_member = 403
http_status ApiErrorCode.payload_too_large = 413
http_status ApiErrorCode.squad_archived = 409
http_status ApiErrorCode.name_in_use = 409
http_status ApiErrorCode.lease_expired = 409
http_status ApiErrorCode.idempotency_conflict = 409
http_status ApiErrorCode.rate_limited = 429
http_status ApiErrorCode.database_busy = 503
http_status ApiErrorCode.internal_error = 500
