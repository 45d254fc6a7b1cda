-- ===== src/Store/Error.antt =====
-- The errors of crates/psst-store/src/repository.rs.
use psst.Prelude.{Bool, true, false, if◌then◌else◌}
use psst.Core.Error.{ErrorCode}

-- What a SQLite call can fail with, as far as the store tells the cases apart.
pub data SqliteError : Type 0 where
  database_busy database_locked constraint_violation query_returned_no_rows : SqliteError
  invalid_query other_failure : SqliteError

pub data RepositoryError : Type 0 where
  invalid_request not_found squad_archived not_member name_in_use lease_expired : RepositoryError
  recipient_not_found idempotency_conflict payload_too_large database_busy : RepositoryError
  internal : SqliteError → RepositoryError
  invalid_stored_data entropy_unavailable injected_failure : RepositoryError

-- `is_busy` of crates/psst-store/src/lib.rs.
unfoldable pub is_busy : SqliteError → Bool
is_busy SqliteError.database_busy = true
is_busy SqliteError.database_locked = true
is_busy _ = false

-- `From<rusqlite::Error> for RepositoryError`.
unfoldable pub from_sqlite : SqliteError → RepositoryError
unfolding is_busy
from_sqlite e = if is_busy e then RepositoryError.database_busy else internal e

unfoldable pub code : RepositoryError → ErrorCode
code RepositoryError.invalid_request = ErrorCode.invalid_request
code RepositoryError.not_found = ErrorCode.not_found
code RepositoryError.squad_archived = ErrorCode.squad_archived
code RepositoryError.not_member = ErrorCode.not_member
code RepositoryError.name_in_use = ErrorCode.name_in_use
code RepositoryError.lease_expired = ErrorCode.lease_expired
code RepositoryError.recipient_not_found = ErrorCode.recipient_not_found
code RepositoryError.idempotency_conflict = ErrorCode.idempotency_conflict
code RepositoryError.payload_too_large = ErrorCode.payload_too_large
code RepositoryError.database_busy = ErrorCode.database_busy
code (internal _) = ErrorCode.internal_error
code invalid_stored_data = ErrorCode.internal_error
code entropy_unavailable = ErrorCode.internal_error
code injected_failure = ErrorCode.internal_error
