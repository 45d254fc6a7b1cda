-- ===== src/Relay/Inbox.antt =====
-- crates/psst-relay/src/lib.rs: the handler of the inbox. What the worker answers to its requests for a
-- page, whether a subscription is free, and what ends each of its waits, are arguments; the page is what
-- the handler hands to `encode_inbox`.
pub mod Ends
use psst.Prelude.{
  ℕ, String, Bool, true, false, not, ◌&&◌, ◌||◌, Option, none, some, List, [], ◌∷◌, ltb, leb, eqb,
  if◌then◌else◌,
}
use psst.Core.Error.{Result, ok, err, ErrorCode, InvalidValue}
use psst.Store.Error.{RepositoryError, code}
use psst.Store.Mailbox.{InboxPage}
use psst.Protocol.Error.{ApiErrorCode}
use psst.Protocol.Auth.{SessionCredential, parse_authorization}
use psst.Relay.Command.{Credential}

pub data DispatchError : Type 0 where
  rate_limited unavailable timeout : DispatchError
  store : RepositoryError → DispatchError

abbrev code_of : ErrorCode → ApiErrorCode
code_of ErrorCode.invalid_request = ApiErrorCode.invalid_request
code_of ErrorCode.not_found = ApiErrorCode.not_found
code_of ErrorCode.squad_archived = ApiErrorCode.squad_archived
code_of ErrorCode.not_member = ApiErrorCode.not_member
code_of ErrorCode.name_in_use = ApiErrorCode.name_in_use
code_of ErrorCode.lease_expired = ApiErrorCode.lease_expired
code_of ErrorCode.recipient_not_found = ApiErrorCode.recipient_not_found
code_of ErrorCode.idempotency_conflict = ApiErrorCode.idempotency_conflict
code_of ErrorCode.payload_too_large = ApiErrorCode.payload_too_large
code_of ErrorCode.rate_limited = ApiErrorCode.rate_limited
code_of ErrorCode.database_busy = ApiErrorCode.database_busy
code_of _ = ApiErrorCode.internal_error

-- `ApiFailure::from`.
unfoldable pub failure : DispatchError → ApiErrorCode
unfolding code
failure DispatchError.rate_limited = ApiErrorCode.rate_limited
failure DispatchError.unavailable = ApiErrorCode.database_busy
failure DispatchError.timeout = ApiErrorCode.database_busy
failure (DispatchError.store e) = code_of (code e)

-- The Authorization headers of a request, each one `none` if its value is not visible ASCII.
module _ (encode : List ℕ → String) (decode : String → Option (List ℕ)) where
  abbrev owned : Result InvalidValue SessionCredential → Result ApiErrorCode Credential
  owned (ok c) = ok (record { instance_id = c.instance_id; resume_token = c.resume_token })
  owned (err _) = err ApiErrorCode.not_found

  unfoldable pub credential : List (Option String) → Result ApiErrorCode Credential
  unfolding parse_authorization
  credential (some value ∷ []) = owned (parse_authorization encode decode value)
  credential _ = err ApiErrorCode.not_found

pub record InboxQuery : Type 0 where
  pub limit : ℕ
  pub wait_seconds : ℕ

abbrev pub Dispatched : Type 0
Dispatched = Result DispatchError InboxPage

-- How a wait ends: at a shutdown, at the deadline, because the channel of the subscription is closed, or
-- because it has changed, with what the worker answers then.
pub data Wait : Type 0 where
  shutdown deadline closed : Wait
  changed : Dispatched → Wait

-- What the handler meets.
pub record Meets : Type 0 where
  pub preflight : Dispatched
  pub subscribes : Bool
  pub second : Dispatched
  pub waits : List Wait

abbrev pub is_empty : InboxPage → Bool
is_empty page = eqb page.pending_count 0

abbrev pub unless_mail :
    InboxPage → Option (Result ApiErrorCode InboxPage) → Option (Result ApiErrorCode InboxPage)
unless_mail page later = if not (is_empty page) then some (ok page) else later

-- The loop, from its page; `none` if it waits more often than is given.
unfoldable pub wait_for_mail : List Wait → InboxPage → Option (Result ApiErrorCode InboxPage)
unfolding failure
wait_for_mail [] page = unless_mail page none
wait_for_mail (shutdown ∷ rest) page = unless_mail page (some (err ApiErrorCode.database_busy))
wait_for_mail (deadline ∷ rest) page = some (ok page)
wait_for_mail (closed ∷ rest) page = unless_mail page (some (err ApiErrorCode.database_busy))
wait_for_mail (changed (err e) ∷ rest) page = unless_mail page (some (err (failure e)))
wait_for_mail (changed (ok next) ∷ rest) page =
    let onward = wait_for_mail rest next in unless_mail page onward

abbrev pub second_by : Dispatched → List Wait → Option (Result ApiErrorCode InboxPage)
second_by (err e) waits = some (err (failure e))
second_by (ok page) waits = wait_for_mail waits page

abbrev pub preflight_by : Dispatched → InboxQuery → Meets → Option (Result ApiErrorCode InboxPage)
preflight_by (err e) query m = some (err (failure e))
preflight_by (ok page) query m =
    if is_empty page && ltb 0 query.wait_seconds
    then if m.subscribes then second_by m.second m.waits else some (err ApiErrorCode.rate_limited)
    else some (ok page)

module _ (encode : List ℕ → String) (decode : String → Option (List ℕ)) where
  abbrev credential_by :
      Result ApiErrorCode Credential → InboxQuery → Meets → Option (Result ApiErrorCode InboxPage)
  credential_by (err e) query m = some (err e)
  credential_by (ok c) query m = preflight_by m.preflight query m

  unfoldable pub inbox :
      List (Option String) → InboxQuery → Meets → Option (Result ApiErrorCode InboxPage)
  unfolding credential failure wait_for_mail
  inbox headers query m =
      if not (leb 1 query.limit && leb query.limit 100) || ltb 30 query.wait_seconds
      then some (err ApiErrorCode.invalid_request)
      else credential_by (credential encode decode headers) query m
