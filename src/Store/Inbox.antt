-- ===== src/Store/Inbox.antt =====
-- crates/psst-store/src/inbox.rs: the pending inbox and its acknowledgement.
pub mod Page
pub mod Updates
mod Checks
pub mod Acknowledge
use psst.Prelude.{
  ℕ, ◌+◌, ◌*◌, ◌-◌, ◌^◌, min, String, Bool, true, false, not, ◌&&◌, Option, none, some, List, [],
  ◌∷◌, ◌++◌, is_none, ltb, leb, length, take, any, exists_row, select_rows, update_rows, ◌==◌,
  if◌then◌else◌,
}
use psst.Prelude.Texts.{len}
use psst.Core.Error.{Result, ok, err, map_err}
use psst.Core.Time.{UnixMillis}
use psst.Core.Id.{MembershipId, MessageId}
use psst.Store.Error.{
  SqliteError, RepositoryError, from_sqlite, invalid_stored_data, injected_failure,
}
use psst.Store.Schema.{Db, MessageRecord, MessageRow}
use psst.Store.Exec.{
  Exec, Outcome, Io, fail, lift, query, modify, reject_if, transaction, ◌>>=◌, ◌>>◌,
}
use psst.Store.Message.{hash_matches}

abbrev pub max_inbox_messages : ℕ
max_inbox_messages = 100

abbrev pub max_inbox_output_bytes : ℕ
max_inbox_output_bytes = 1024 * 1024

abbrev pub max_ack_messages : ℕ
max_ack_messages = 100

-- usize on a 64-bit target.
abbrev pub usize_max : ℕ
usize_max = 2 ^ 64 - 1

abbrev checked_add : ℕ → ℕ → Option ℕ
checked_add a b = if leb (a + b) usize_max then some (a + b) else none

abbrev saturating_mul : ℕ → ℕ → ℕ
saturating_mul a b = min (a * b) usize_max

abbrev saturating_add : ℕ → ℕ → ℕ
saturating_add a b = min (a + b) usize_max

abbrev opt_len : Option String → ℕ
opt_len none = 0
opt_len (some s) = len s

pub record InboxQuery : Type 0 where
  pub recipient : MembershipId
  pub limit : ℕ

pub record AcknowledgeMessages : Type 0 where
  pub recipient : MembershipId
  pub message_ids : List MessageId
  pub acknowledged_at : UnixMillis

unfoldable pub conservative_serialized_size : MessageRecord → ℕ
conservative_serialized_size m =
    let variable_bytes =
      len m.id
      + len m.semantics.squad
      + len m.semantics.sender
      + len m.semantics.recipient
      + len m.semantics.body
      + len m.dedupe_key
      + opt_len m.semantics.reply_to
      + opt_len m.semantics.correlation_id in
    saturating_add (saturating_mul variable_bytes 6) 512

-- `.is_none_or(|size| size > MAX_INBOX_OUTPUT_BYTES)`.
abbrev over_budget : Option ℕ → Bool
over_budget none = true
over_budget (some size) = ltb max_inbox_output_bytes size

abbrev add_both : ℕ → ℕ → ℕ → Option ℕ
add_both estimated separator item = elim (checked_add estimated separator) [
  | none ↦ none
  | some size ↦ checked_add size item
]

abbrev in_range : ℕ → ℕ → Bool
in_range max n = leb 1 n && leb n max

abbrev pub is_pending : MembershipId → MessageRow → Bool
is_pending recipient m = m.semantics.recipient == recipient && is_none m.acknowledged_at

-- `EXISTS(SELECT 1 FROM messages WHERE id = ?1 AND recipient_membership_id = ?2)`.
abbrev pub is_owned : MembershipId → MessageId → MessageRow → Bool
is_owned recipient id m = m.id == id && m.semantics.recipient == recipient

abbrev pub acknowledged_row : UnixMillis → MessageRow → MessageRow
acknowledged_row at m = record m { acknowledged_at = some at }

-- The first loop of `acknowledge_on`: the distinct ids, or the error of an id that is not owned.
unfoldable pub check_owned :
    MembershipId → List MessageId → List MessageId → Db → Outcome (List MessageId)
check_owned recipient distinct [] db = ok distinct
check_owned recipient distinct (id ∷ ids) db =
    let seen = check_owned recipient distinct ids db in
    let fresh = check_owned recipient (distinct ++ id ∷ []) ids db in
    if any (λ d. d == id) distinct
    then seen
    else if exists_row (is_owned recipient id) db.messages
    then fresh
    else err RepositoryError.not_found

-- `UPDATE messages SET acknowledged_at = ?3 WHERE id = ?1 AND recipient_membership_id = ?2 AND
-- acknowledged_at IS NULL`.
unfoldable pub acknowledge_one : MembershipId → UnixMillis → MessageId → Db → Db
acknowledge_one recipient at id db = record db {
  messages =
      update_rows (λ m. is_owned recipient id m && is_none m.acknowledged_at) (acknowledged_row at)
        db.messages;
}

-- The second loop. The set is walked in the order of the request: each row is written by its own
-- UPDATE alone, so another order leaves the same table.
unfoldable pub acknowledge_all : MembershipId → UnixMillis → List MessageId → Db → Db
unfolding acknowledge_one
acknowledge_all recipient at [] db = db
acknowledge_all recipient at (id ∷ ids) db =
    acknowledge_all recipient at ids (acknowledge_one recipient at id db)

abbrev pub first_only : Bool → List MessageId → List MessageId
first_only fault [] = []
first_only fault (id ∷ ids) = if fault then id ∷ [] else id ∷ ids

unfoldable pub acknowledge_on : AcknowledgeMessages → Bool → Exec (Unit {0})
unfolding check_owned acknowledge_all ◌>>=◌
acknowledge_on request fail_after_first_update = do
  checked ← query (check_owned request.recipient [] request.message_ids)
  distinct ← lift checked
  modify (
      acknowledge_all request.recipient request.acknowledged_at
        (first_only fail_after_first_update distinct))
  reject_if (fail_after_first_update && leb 1 (length distinct)) injected_failure

unfoldable pub acknowledge_messages_with_fault : Io → AcknowledgeMessages → Bool → Exec (Unit {0})
unfolding transaction acknowledge_on
acknowledge_messages_with_fault io request fail_after_first_update =
    if in_range max_ack_messages (length request.message_ids)
    then transaction io (acknowledge_on request fail_after_first_update)
    else fail RepositoryError.invalid_request

unfoldable pub acknowledge_messages : Io → AcknowledgeMessages → Exec (Unit {0})
unfolding acknowledge_messages_with_fault
acknowledge_messages io request = acknowledge_messages_with_fault io request false

unfoldable pub map_decode_error : SqliteError → RepositoryError
map_decode_error SqliteError.invalid_query = invalid_stored_data
map_decode_error e = from_sqlite e

module _ (sha256 : List ℕ → List ℕ) where
  -- `map_message`: the record of a row whose body still has its hash.
  unfoldable pub map_message : MessageRow → Result SqliteError MessageRecord
  map_message m = if hash_matches sha256 m then ok m.message else err SqliteError.invalid_query

  -- The loop of `pending_inbox_on`: a row is decoded, and taken while the estimate allows.
  unfoldable pub fill : ℕ → ℕ → List MessageRow → Outcome (List MessageRecord)
  unfolding map_message map_decode_error conservative_serialized_size
  fill estimated separator [] = ok []
  fill estimated separator (row ∷ rows) =
      let item = conservative_serialized_size row.message in
      let rest = fill (estimated + separator + item) 1 rows in
      elim (map_err map_decode_error (map_message row)) [
        | err e ↦ err e
        | ok m ↦
            if over_budget (add_both estimated separator item)
            then ok []
            else elim rest [ err e ↦ err e | ok ms ↦ ok (m ∷ ms) ]
      ]

  -- The two bytes at the start are the brackets of the JSON array.
  unfoldable pub pending_inbox_on : InboxQuery → Exec (List MessageRecord)
  unfolding fill ◌>>=◌
  pending_inbox_on q = do
    reject_if (not (in_range max_inbox_messages q.limit)) RepositoryError.invalid_request
    rows ← query (λ db. take q.limit (select_rows (is_pending q.recipient) db.messages))
    lift (fill 2 0 rows)

  unfoldable pub pending_inbox : InboxQuery → Exec (List MessageRecord)
  unfolding pending_inbox_on
  pending_inbox = pending_inbox_on
