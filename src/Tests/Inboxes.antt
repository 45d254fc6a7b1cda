-- ===== src/Tests/Inboxes.antt =====
-- Pages and acknowledgements of the small squad's inbox.
use psst.Prelude.{
  ◌≡◌, ◌≤◌, ◌+◌, ◌*◌, refl, arith, min, some, List, [], ◌∷◌, length, All, true, exists_row,
  select_rows, if◌then◌else◌,
}
use psst.Prelude.Texts.{codes_eq, as_bytes, len}
use psst.Store.Message.{hash_matches}
use psst.Core.Error.{ok, err}
use psst.Store.Error.{RepositoryError}
use psst.Store.Schema.{Db, MessageRecord}
use psst.Store.Exec.{reliable}
use psst.Store.Inbox.{
  InboxQuery, AcknowledgeMessages, is_pending, pending_inbox, acknowledge_messages,
  conservative_serialized_size,
}
use psst.Store.Inbox.Page.{
  IsPrefix, array_size, pending_inbox-page, pending_inbox-answers, pending_inbox-progress,
}
use psst.Store.Inbox.Updates.{owns_all, acknowledged}
use psst.Store.Inbox.Acknowledge.{acknowledge_messages-all_or_none, acknowledge_messages-again}
use psst.Tests.{digest, sent_record, sent_row, after_send}

abbrev inbox : InboxQuery
inbox = record { recipient = "mem_bob"; limit = 10 }

page_read : pending_inbox digest inbox after_send ≡ (ok (sent_record ∷ []), after_send)
unfolding pending_inbox select_rows codes_eq as_bytes len
page_read = refl

pending_inbox-page_example :
    ((after_send ≡ after_send)
      × IsPrefix (sent_record ∷ []) (select_rows (is_pending "mem_bob") after_send.messages))
    × ((length (sent_record ∷ []) ≤ min 10 100)
        × (2 + array_size 0 (sent_record ∷ []) ≤ 1024 * 1024))
pending_inbox-page_example =
    pending_inbox-page digest inbox after_send after_send (sent_record ∷ []) page_read

bodies_intact : All (λ r. hash_matches digest r ≡ true) after_send.messages
unfolding codes_eq as_bytes
bodies_intact = (refl, tt)

pending_inbox-answers_example :
    (ms : List MessageRecord) × (pending_inbox digest inbox after_send ≡ (ok ms, after_send))
pending_inbox-answers_example =
    pending_inbox-answers digest inbox after_send bodies_intact (omega arith) (omega arith)

pending_rows : select_rows (is_pending "mem_bob") after_send.messages ≡ sent_row ∷ []
unfolding select_rows
pending_rows = refl

small_enough : 2 + conservative_serialized_size sent_record ≤ 1024 * 1024
unfolding conservative_serialized_size len
small_enough = omega arith

pending_inbox-progress_example :
    (others : List MessageRecord) × (pending_inbox digest inbox after_send
      ≡ (ok (sent_record ∷ others), after_send))
pending_inbox-progress_example =
    pending_inbox-progress digest inbox after_send sent_row [] bodies_intact (omega arith)
      (omega arith) pending_rows small_enough

-- The id is asked for twice.
abbrev twice : AcknowledgeMessages
twice = record {
  recipient = "mem_bob";
  message_ids = "msg_1" ∷ "msg_1" ∷ [];
  acknowledged_at = 500;
}

acknowledge_messages-all_or_none_example : acknowledge_messages reliable twice after_send ≡ (
    if owns_all "mem_bob" twice.message_ids after_send
    then (ok tt, acknowledged "mem_bob" 500 twice.message_ids after_send)
    else (err RepositoryError.not_found, after_send))
acknowledge_messages-all_or_none_example =
    acknowledge_messages-all_or_none twice after_send (omega arith) (omega arith)

abbrev after_read : Db
after_read = record after_send { messages = record sent_row { acknowledged_at = some 500 } ∷ [] }

read_twice : acknowledge_messages reliable twice after_send ≡ (ok tt, after_read)
unfolding acknowledge_messages exists_row
read_twice = refl

acknowledge_messages-again_example :
    acknowledge_messages reliable (record twice { acknowledged_at = 900 }) after_read
    ≡ (ok tt, after_read)
acknowledge_messages-again_example =
    acknowledge_messages-again twice 900 after_send after_read read_twice
