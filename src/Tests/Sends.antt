-- ===== src/Tests/Sends.antt =====
-- Sends, retries and their conflicts.
use psst.Prelude.{◌≡◌, refl, ap, Bool, true, List, [], ◌∷◌, ◌==◌, eq_iff, find_row, exists_row}
use psst.Core.Error.{ok, err}
use psst.Core.Message.{MessageSemantics}
use psst.Store.Error.{idempotency_conflict}
use psst.Store.Exec.{Io, reliable}
use psst.Store.Message.{send_message}
use psst.Store.History.{Operation, run, leaves, archives_squad}
use psst.Store.History.Retries.{send_message-retry, send_message-conflict}
use psst.Tests.{digest, people, request, again, other, sent_record, after_send}

abbrev departure : List (Io × Operation)
departure =
    (reliable, leaves "sqd_team" "mem_alice" 350 Bool.false)
    ∷ (reliable, archives_squad "team" 360)
    ∷ []

sent : send_message digest reliable request people ≡ (ok sent_record, after_send)
unfolding send_message find_row exists_row
sent = refl

send_message-retry_example :
    send_message digest reliable again (run digest departure after_send)
    ≡ (ok sent_record, run digest departure after_send)
send_message-retry_example =
    send_message-retry digest reliable request again people after_send sent_record departure sent
      refl refl

differs : ¬ (other.semantics ≡ request.semantics)
differs h =
    let same : ("goodbye" == "hello") ≡ true =
      (eq_iff "goodbye" "hello").1 (ap (λ (m : MessageSemantics). m.body) h) in
    absurd (cc)

send_message-conflict_example :
    send_message digest reliable other (run digest departure after_send)
    ≡ (err idempotency_conflict, run digest departure after_send)
send_message-conflict_example =
    send_message-conflict digest reliable request other people after_send sent_record departure sent
      refl refl refl differs
