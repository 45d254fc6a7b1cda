-- ===== src/Store/Message.antt =====
-- crates/psst-store/src/message.rs: the idempotent send. `sha256` is the digest of the `sha2` crate,
-- a function on byte strings of which only its being a function is used.
pub mod Retry
use psst.Prelude.{ℕ, Bool, not, ◌&&◌, Option, none, some, List, find_row, ◌==◌, if◌then◌else◌}
use psst.Prelude.Texts.{as_bytes, codes_eq}
use psst.Core.Error.{ok, err}
use psst.Core.Time.{UnixMillis}
use psst.Core.Id.{MessageId}
use psst.Core.Value.{DedupeKey}
use psst.Core.Message.{MessageSemantics, matches_retry}
use psst.Store.Error.{RepositoryError, invalid_stored_data, injected_failure}
use psst.Store.Schema.{SquadRecord, MessageRecord, MessageRow}
use psst.Store.Exec.{
  Exec, Outcome, Io, pure, fail, lift, query, reject_if, transaction, ◌>>=◌, ◌>>◌,
}
use psst.Store.Insert.{insert_message, has_message_in}
use psst.Store.Repository.{is_active, is_active_member}

pub record SendMessage : Type 0 where
  pub id : MessageId
  pub semantics : MessageSemantics
  pub dedupe_key : DedupeKey
  pub created_at : UnixMillis

-- `WHERE squad_id = ?1 AND sender_membership_id = ?2 AND dedupe_key = ?3`.
abbrev pub same_send : SendMessage → MessageRow → Bool
same_send request m =
    m.semantics.squad == request.semantics.squad
    && (m.semantics.sender == request.semantics.sender && m.dedupe_key == request.dedupe_key)

unfoldable pub require_active_squad : Option SquadRecord → Exec (Unit {0})
unfolding fail reject_if
require_active_squad none = fail RepositoryError.not_found
require_active_squad (some s) = reject_if (not (is_active s.state)) RepositoryError.squad_archived

-- The checks of the squad and of both members.
unfoldable pub authorize_squad_and_members : MessageSemantics → Exec (Unit {0})
unfolding is_active_member require_active_squad ◌>>=◌
authorize_squad_and_members semantics = do
  found ← query (λ db. find_row (λ s. s.id == semantics.squad) db.squads)
  require_active_squad found
  sender_active ← query (is_active_member semantics.sender semantics.squad)
  reject_if (not sender_active) RepositoryError.not_member
  recipient_active ← query (is_active_member semantics.recipient semantics.squad)
  reject_if (not recipient_active) RepositoryError.recipient_not_found

unfoldable pub reply_exists : Option MessageId → MessageSemantics → Exec (Unit {0})
unfolding ◌>>=◌
reply_exists none semantics = pure tt
reply_exists (some reply_to) semantics = do
  valid ← query (has_message_in reply_to semantics.squad)
  reject_if (not valid) RepositoryError.invalid_request

unfoldable pub authorize_reply : MessageSemantics → Exec (Unit {0})
unfolding reply_exists
authorize_reply semantics = reply_exists semantics.reply_to semantics

module _ (sha256 : List ℕ → List ℕ) where
  abbrev pub hash_matches : MessageRow → Bool
  hash_matches m = codes_eq m.body_hash (sha256 (as_bytes m.semantics.body))

  -- What the query maps the row to: the keys of the WHERE clause are copied from the request.
  abbrev pub found_record : SendMessage → MessageRow → MessageRecord
  found_record request m = record m.message {
    semantics = record m.semantics {
      squad = request.semantics.squad;
      sender = request.semantics.sender;
    };
    dedupe_key = request.dedupe_key;
  }

  abbrev pub decode_found : SendMessage → Option MessageRow → Outcome (Option MessageRecord)
  decode_found request none = ok none
  decode_found request (some m) =
      if hash_matches m then ok (some (found_record request m)) else err invalid_stored_data

  unfoldable pub find_by_dedupe : SendMessage → Exec (Option MessageRecord)
  unfolding ◌>>=◌
  find_by_dedupe request = do
    row ← query (λ db. find_row (same_send request) db.messages)
    lift (decode_found request row)

  abbrev pub retry_outcome : SendMessage → MessageRecord → Outcome MessageRecord
  retry_outcome request existing =
      if matches_retry existing.semantics request.semantics
      then ok existing
      else err RepositoryError.idempotency_conflict

  abbrev pub retry_result : SendMessage → Option MessageRecord → Option (Outcome MessageRecord)
  retry_result request none = none
  retry_result request (some m) = some (retry_outcome request m)

  unfoldable pub resolve_retry : SendMessage → Exec (Option (Outcome MessageRecord))
  unfolding find_by_dedupe ◌>>=◌
  resolve_retry request = do existing ← find_by_dedupe request; pure (retry_result request existing)

  abbrev pub new_record : SendMessage → ℕ → MessageRecord
  new_record request sequence = record {
    sequence = sequence;
    id = request.id;
    semantics = request.semantics;
    dedupe_key = request.dedupe_key;
    created_at = request.created_at;
  }

  abbrev pub new_row : SendMessage → ℕ → MessageRow
  new_row request sequence = record {
    message = new_record request sequence;
    body_hash = sha256 (as_bytes request.semantics.body);
    acknowledged_at = none;
  }

  -- What a send that is not a retry does.
  unfoldable pub commit_new : SendMessage → Exec MessageRecord
  unfolding authorize_squad_and_members authorize_reply insert_message ◌>>=◌
  commit_new request = do
    authorize_squad_and_members request.semantics
    authorize_reply request.semantics
    insert_message (new_row request 0)
    sequence ← query (λ db. db.last_sequence)
    pure (new_record request sequence)

  unfoldable pub retry_or_new : SendMessage → Option (Outcome MessageRecord) → Exec MessageRecord
  unfolding commit_new lift
  retry_or_new request (some result) = lift result
  retry_or_new request none = commit_new request

  unfoldable pub send_in_transaction : SendMessage → Exec MessageRecord
  unfolding resolve_retry retry_or_new ◌>>=◌
  send_in_transaction request = do retry ← resolve_retry request; retry_or_new request retry

  unfoldable pub send_message_with_commit_fault : Io → SendMessage → Bool → Exec MessageRecord
  unfolding transaction send_in_transaction
  send_message_with_commit_fault io request fail_after_commit = do
    result ← transaction io (send_in_transaction request)
    reject_if fail_after_commit injected_failure
    pure result

  unfoldable pub send_message : Io → SendMessage → Exec MessageRecord
  unfolding send_message_with_commit_fault
  send_message io request = send_message_with_commit_fault io request Bool.false
