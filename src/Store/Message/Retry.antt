-- ===== src/Store/Message/Retry.antt =====
-- The idempotent send of crates/psst-store/src/message.rs: what a retry meets.
use psst.Prelude.{
  ℕ, suc, ◌≡◌, refl, true, none, some, List, arith, find_row, find_row-snoc, Option-cases, inl, inr,
  eq_iff, subst, sym, ◌∙◌, find_row-test,
}
use psst.Prelude.Texts.{as_bytes, codes_eq_iff}
use psst.Core.Error.{ok}
use psst.Core.Message.{matches_retry, matches_retry_iff}
use psst.Store.Schema.{Db, MessageRecord, MessageRow}
use psst.Store.Insert.{add_message}
use psst.Store.Message.{
  SendMessage, same_send, hash_matches, found_record, new_record, new_row, commit_new,
  send_in_transaction,
}

module _ (sha256 : List ℕ → List ℕ) where
  -- A send that is not a retry and succeeds has written its row under the next sequence number.
  pub commit_new-ok :
      (request : SendMessage) (db after : Db) (m : MessageRecord)
      → commit_new sha256 request db ≡ (ok m, after)
      → (m ≡ new_record sha256 request (suc db.last_sequence))
        × (after ≡ add_message (new_row sha256 request 0) db)
  unfolding commit_new
  commit_new-ok request db after m h = ground arith

  -- The row that a request has on record.
  pub record OnRecord (request : SendMessage) (db : Db) (m : MessageRecord) : Type 0 where
    pub row : MessageRow
    pub found : find_row (same_send request) db.messages ≡ some row
    pub intact : hash_matches sha256 row ≡ true
    pub same : row.semantics ≡ request.semantics
    pub shown : m ≡ found_record sha256 request row

  same_send-new :
      (request : SendMessage) (n : ℕ) → same_send request (new_row sha256 request n) ≡ true
  same_send-new request n = ground (
    arith,
    eq_iff request.semantics.squad request.semantics.squad,
    eq_iff request.semantics.sender request.semantics.sender,
    eq_iff request.dedupe_key request.dedupe_key,
  )

  hash_matches-new :
      (request : SendMessage) (n : ℕ) → hash_matches sha256 (new_row sha256 request n) ≡ true
  hash_matches-new request n = (codes_eq_iff (sha256 (as_bytes request.semantics.body)) _).1 refl

  -- A row that is found gives the answer, and nothing is written.
  replay-answer :
      (request : SendMessage) (db after : Db) (m : MessageRecord) (row : MessageRow)
      → find_row (same_send request) db.messages ≡ some row
      → send_in_transaction sha256 request db ≡ (ok m, after)
      → ((after ≡ db) × (hash_matches sha256 row ≡ true))
        × ((matches_retry (found_record sha256 request row).semantics request.semantics ≡ true)
            × (m ≡ found_record sha256 request row))
  unfolding send_in_transaction
  replay-answer request db after m row e h = ground arith

  same_semantics :
      (request : SendMessage) (row : MessageRow)
      → same_send request row ≡ true
      → matches_retry (found_record sha256 request row).semantics request.semantics ≡ true
      → row.semantics ≡ request.semantics
  same_semantics request row e h = ground (
    arith,
    matches_retry_iff (found_record sha256 request row).semantics request.semantics,
    eq_iff row.semantics.squad request.semantics.squad,
    eq_iff row.semantics.sender request.semantics.sender,
  )

  fresh-answer :
      (request : SendMessage) (db : Db)
      → find_row (same_send request) db.messages ≡ none
      → send_in_transaction sha256 request db ≡ commit_new sha256 request db
  unfolding send_in_transaction
  fresh-answer request db e = ground arith

  fresh-OnRecord :
      (request : SendMessage) (db after : Db) (m : MessageRecord)
      → find_row (same_send request) db.messages ≡ none
      → (m ≡ new_record sha256 request (suc db.last_sequence))
        × (after ≡ add_message (new_row sha256 request 0) db)
      → OnRecord request after m
  fresh-OnRecord request db after m e (shown, kept) =
      let n = suc db.last_sequence in
      let found =
        find_row-snoc (same_send request) db.messages (new_row sha256 request n) e
          (same_send-new request n) in
      record {
        row = new_row sha256 request n;
        found =
            subst (λ d. find_row (same_send request) d.messages ≡ some (new_row sha256 request n))
              (sym kept) found;
        intact = hash_matches-new request n;
        same = refl;
        shown = shown;
      }

  -- A send that succeeds leaves its message on record.
  pub send-OnRecord :
      (request : SendMessage) (db after : Db) (m : MessageRecord)
      → send_in_transaction sha256 request db ≡ (ok m, after)
      → OnRecord request after m
  send-OnRecord request db after m h =
      elim (Option-cases (find_row (same_send request) db.messages)) [
        | inl e ↦
            let c : commit_new sha256 request db ≡ (ok m, after) =
              sym (fresh-answer request db e) ∙ h in
            fresh-OnRecord request db after m e (commit_new-ok request db after m c)
        | inr (row, e) ↦
            let ((kept, intact), (same, shown)) = replay-answer request db after m row e h in
            record {
              row = row;
              found = subst (λ d. find_row (same_send request) d.messages ≡ some row) (sym kept) e;
              intact = intact;
              same =
                  same_semantics request row (find_row-test (same_send request) db.messages row e)
                    same;
              shown = shown;
            }
      ]

  -- A request that is on record is answered by its record, and changes nothing.
  pub OnRecord-send :
      (request : SendMessage) (db : Db) (m : MessageRecord)
      → OnRecord request db m
      → send_in_transaction sha256 request db ≡ (ok m, db)
  unfolding send_in_transaction
  OnRecord-send request db m r =
      ground
        (arith, matches_retry_iff (found_record sha256 request r.row).semantics request.semantics)
