-- ===== src/Store/History/Retries.antt =====
-- Retries of crates/psst-store/src/message.rs after other operations have run.
use psst.Prelude.{ℕ, ◌≡◌, Bool, true, some, List, arith, find_row}
use psst.Prelude.Grows.{find_row-Grows}
use psst.Core.Message.{matches_retry_iff}
use psst.Core.Error.{ok, err}
use psst.Store.Error.{idempotency_conflict}
use psst.Store.Schema.{Db, MessageRecord, MessageRow}
use psst.Store.Exec.{Io, reliable, transaction}
use psst.Store.Exec.Atomic.{transaction-ok, transaction-reliable, transaction-reliable_err}
use psst.Store.Message.{
  SendMessage, same_send, hash_matches, found_record, send_in_transaction, send_message,
  send_message_with_commit_fault,
}
use psst.Store.Message.Retry.{OnRecord, send-OnRecord, OnRecord-send}
use psst.Store.History.{Operation, run, run-respects}
use psst.Store.History.Kept.{Extends, KeptMessage}
use psst.Store.History.Extends.{Extends-respected}

module _ (sha256 : List ℕ → List ℕ) where
  same_send-kept :
      (request : SendMessage) (a b : MessageRow)
      → KeptMessage a b
      → same_send request b ≡ same_send request a
  same_send-kept request a b k = ground arith

  hash_matches-kept :
      (a b : MessageRow)
      → KeptMessage a b
      → hash_matches sha256 a ≡ true
      → hash_matches sha256 b ≡ true
  hash_matches-kept a b k h = ground arith

  kept-OnRecord :
      (request : SendMessage) (after : Db) (m : MessageRecord) (row kept : MessageRow)
      → find_row (same_send request) after.messages ≡ some kept
      → KeptMessage row kept
      → hash_matches sha256 row ≡ true
      → row.semantics ≡ request.semantics
      → m ≡ found_record sha256 request row
      → OnRecord sha256 request after m
  kept-OnRecord request after m row kept found k intact same shown = record {
    row = kept;
    found = found;
    intact = hash_matches-kept row kept k intact;
    same = ground arith;
    shown = ground arith;
  }

  -- What is on record stays on record.
  OnRecord-Extends :
      (request : SendMessage) (before after : Db) (m : MessageRecord)
      → OnRecord sha256 request before m
      → Extends before after
      → OnRecord sha256 request after m
  OnRecord-Extends request before after m r e =
      let (kept, found, k) =
        find_row-Grows KeptMessage (same_send request) (same_send-kept request) before.messages
          after.messages r.row e.messages r.found in
      kept-OnRecord request after m r.row kept found k r.intact r.same r.shown

  -- A retry is recognised by its semantics and its key alone.
  OnRecord-again :
      (request again : SendMessage) (db : Db) (m : MessageRecord)
      → again.semantics ≡ request.semantics
      → again.dedupe_key ≡ request.dedupe_key
      → OnRecord sha256 request db m
      → OnRecord sha256 again db m
  OnRecord-again request again db m es ed r = record {
    row = r.row;
    found = rw (es, ed, r.found);
    intact = r.intact;
    same = ground arith;
    shown = ground arith;
  }

  sent-in_transaction :
      (io : Io) (request : SendMessage) (fault : Bool) (db after : Db) (m : MessageRecord)
      → send_message_with_commit_fault sha256 io request fault db ≡ (ok m, after)
      → transaction io (send_in_transaction sha256 request) db ≡ (ok m, after)
  unfolding send_message_with_commit_fault
  sent-in_transaction io request fault db after m h = ground arith

  reliable_send :
      (request : SendMessage) (db after : Db) (m : MessageRecord)
      → send_in_transaction sha256 request db ≡ (ok m, after)
      → send_message sha256 reliable request db ≡ (ok m, after)
  unfolding send_message
  reliable_send request db after m h =
      let t = transaction-reliable (send_in_transaction sha256 request) db after m h in ground arith

  answered_again :
      (request again : SendMessage) (db after : Db) (m : MessageRecord)
      (later : List (Io × Operation))
      → send_in_transaction sha256 request db ≡ (ok m, after)
      → again.semantics ≡ request.semantics
      → again.dedupe_key ≡ request.dedupe_key
      → send_message sha256 reliable again (run sha256 later after) ≡ (ok m, run sha256 later after)
  answered_again request again db after m later h es ed =
      let now = run sha256 later after in
      let sent = send-OnRecord sha256 request db after m h in
      let kept =
        OnRecord-Extends request after now m sent
          (run-respects (Extends-respected sha256) later after) in
      reliable_send again now now m
        (OnRecord-send sha256 again now m (OnRecord-again request again now m es ed kept))

  conflict_answer :
      (request again : SendMessage) (db : Db) (m : MessageRecord)
      → OnRecord sha256 request db m
      → again.semantics.squad ≡ request.semantics.squad
      → again.semantics.sender ≡ request.semantics.sender
      → again.dedupe_key ≡ request.dedupe_key
      → ¬ (again.semantics ≡ request.semantics)
      → (send_in_transaction sha256 again db).0 ≡ err idempotency_conflict
  unfolding send_in_transaction
  conflict_answer request again db m r es ed ek differs =
      let found : find_row (same_send again) db.messages ≡ some r.row = rw (es, ed, ek, r.found) in
      let intact = r.intact in
      let same = r.same in
      ground (arith, matches_retry_iff (found_record sha256 again r.row).semantics again.semantics)

  -- A send that was answered with a message is answered with that message for ever: whatever
  -- operations have run since, a request with the same semantics and deduplication key, under any id
  -- and time, is answered with the message of the first one, and changes nothing.
  pub send_message-retry :
      (io : Io) (request again : SendMessage) (db after : Db) (m : MessageRecord)
      (later : List (Io × Operation))
      → send_message sha256 io request db ≡ (ok m, after)
      → again.semantics ≡ request.semantics
      → again.dedupe_key ≡ request.dedupe_key
      → send_message sha256 reliable again (run sha256 later after) ≡ (ok m, run sha256 later after)
  unfolding send_message
  send_message-retry io request again db after m later h es ed =
      let t = sent-in_transaction io request Bool.false db after m h in
      answered_again request again db after m later
        (transaction-ok io (send_in_transaction sha256 request) db after m t) es ed

  -- A request that reuses the deduplication key of a message that its sender sent in the squad, with
  -- other semantics, is answered with `idempotency_conflict` and changes nothing, whatever operations
  -- have run since.
  pub send_message-conflict :
      (io : Io) (request again : SendMessage) (db after : Db) (m : MessageRecord)
      (later : List (Io × Operation))
      → send_message sha256 io request db ≡ (ok m, after)
      → again.semantics.squad ≡ request.semantics.squad
      → again.semantics.sender ≡ request.semantics.sender
      → again.dedupe_key ≡ request.dedupe_key
      → ¬ (again.semantics ≡ request.semantics)
      → send_message sha256 reliable again (run sha256 later after)
        ≡ (err idempotency_conflict, run sha256 later after)
  unfolding send_message
  send_message-conflict io request again db after m later h es ed ek differs =
      let now = run sha256 later after in
      let t = sent-in_transaction io request Bool.false db after m h in
      let sent =
        send-OnRecord sha256 request db after m
          (transaction-ok io (send_in_transaction sha256 request) db after m t) in
      let kept =
        OnRecord-Extends request after now m sent
          (run-respects (Extends-respected sha256) later after) in
      let answer = conflict_answer request again now m kept es ed ek differs in
      let e =
        transaction-reliable_err (send_in_transaction sha256 again) now idempotency_conflict
          answer in
      ground arith
