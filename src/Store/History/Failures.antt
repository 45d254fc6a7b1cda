-- ===== src/Store/History/Failures.antt =====
-- The operations of crates/psst-store/src that fail.
use psst.Prelude.{
  ℕ, ◌≡◌, refl, ap, ◌∙◌, Bool, true, false, ◌&&◌, List, exists_row, update_rows-none, arith, ◌==◌,
}
use psst.Core.Error.{ok, err}
use psst.Core.Time.{UnixMillis}
use psst.Core.Value.{SquadName}
use psst.Store.Error.{RepositoryError}
use psst.Store.Schema.{Db, SquadRecord}
use psst.Store.Exec.{Io, Exec, Outcome, transaction, continue}
use psst.Store.Exec.Steps.{Steps, step_rules}
use psst.Store.Exec.Atomic.{
  Atomic, Atomic-then, Atomic-transaction, atomic_rules, Unmoved, Unmoved-order, transaction-err,
  transaction-ok_at,
}
use psst.Store.Repository.{
  create_squad, archive_squad, archive_result, update_archived, archived_row, is_active,
  join_with_fault, leave_with_fault,
}
use psst.Store.Message.{send_message_with_commit_fault, send_in_transaction, SendMessage}
use psst.Store.Inbox.{acknowledge_messages_with_fault}
use psst.Store.Instance.{claim_instance, heartbeat_instance, resume_instance_with_fault}
use psst.Store.Mailbox.{authenticated_send, authenticated_send_by_name, authenticated_acknowledge}
use psst.Store.Lifecycle.{
  join_and_claim_inner, authenticated_heartbeat, authenticated_leave, authenticated_archive,
  authenticated_archive_by_name,
}
use psst.Store.Resume.{authenticated_resume}
use psst.Store.History.{
  Operation, sends, creates_squad, archives_squad, joins, leaves, acknowledges, claims, heartbeats,
  resumes, session_joins, session_heartbeats, session_sends, session_sends_by_name,
  session_acknowledges, session_leaves, session_archives, session_archives_by_name, session_resumes,
  execute, perform, forget, discard,
}

update_archived-none :
    (test : SquadRecord → Bool) (t : UnixMillis) (db : Db)
    → (update_archived test t db).0 ≡ ok false
    → (update_archived test t db).1 ≡ db
unfolding update_archived
update_archived-none test t db h =
    let p : SquadRecord → Bool = λ s. test s && is_active s.state in
    let none_passes : exists_row p db.squads ≡ false = ground arith in
    ap (λ rows. record db { squads = rows })
      (update_rows-none p (archived_row t) db.squads none_passes)

archive_result-same :
    (name : SquadName) (changed : Bool) → Steps Unmoved (archive_result name changed)
unfolding archive_result
archive_result-same name true = search (step_rules, Unmoved-order) depth 6
archive_result-same name false = search (step_rules, Unmoved-order) depth 8

archive_then :
    (r : Outcome Bool) (name : SquadName) (db mid : Db) (e : RepositoryError)
    → ((x : RepositoryError) → r ≡ err x → mid ≡ db)
    → (r ≡ ok false → mid ≡ db)
    → (continue r (archive_result name) mid).0 ≡ err e
    → (continue r (archive_result name) mid).1 ≡ db
unfolding archive_result
archive_then (ok true) name db mid e hx hf h = absurd (cc)
archive_then (ok false) name db mid e hx hf h = (archive_result-same name false).at mid ∙ hf refl
archive_then (err x) name db mid e hx hf h = hx x refl

archive_squad-Atomic :
    (io : Io) (name : SquadName) (t : UnixMillis) → Atomic (archive_squad io name t)
unfolding archive_squad
archive_squad-Atomic io name t = record {
  at = λ db e h.
      let test : SquadRecord → Bool = λ s. s.name == name in
      let body = update_archived test t in
      archive_then (transaction io body db).0 name db (transaction io body db).1 e
        (λ x. transaction-err io body db x)
        (λ q.
          let (answer, same) = transaction-ok_at io body db false q in
          same ∙ update_archived-none test t db answer)
        h;
}

forget-err {ℓ} : {A : Type ℓ} (r : Outcome A) (e : RepositoryError) → forget r ≡ err e → r ≡ err e
forget-err (ok a) e h = absurd (cc)
forget-err (err x) e h = cc

module _ (sha256 : List ℕ → List ℕ) where
  -- Only a send that its test fails after COMMIT keeps what it wrote.
  abbrev pub is_atomic : Operation → Bool
  is_atomic (sends r true) = false
  is_atomic _ = true

  discard-Atomic {ℓ} : {A : Type ℓ} (m : Exec A) → Atomic m → Atomic (discard m)
  discard-Atomic m a = record { at = λ db e h. a.at db e (forget-err (m db).0 e h) }

  send_message-Atomic :
      (io : Io) (r : SendMessage) → Atomic (send_message_with_commit_fault sha256 io r false)
  unfolding send_message_with_commit_fault
  send_message-Atomic io r =
      Atomic-then (transaction io (send_in_transaction sha256 r)) _
        (Atomic-transaction io (send_in_transaction sha256 r)) (λ e m db h. absurd (cc))

  execute-Atomic : (io : Io) (op : Operation) → is_atomic op ≡ true → Atomic (execute sha256 io op)
  unfolding execute create_squad join_with_fault leave_with_fault acknowledge_messages_with_fault
      claim_instance heartbeat_instance resume_instance_with_fault join_and_claim_inner
      authenticated_heartbeat authenticated_send authenticated_send_by_name
      authenticated_acknowledge authenticated_leave authenticated_archive
      authenticated_archive_by_name authenticated_resume
  execute-Atomic io (creates_squad r) h =
      discard-Atomic (create_squad io r) (search atomic_rules depth 4)
  execute-Atomic io (archives_squad n t) h = discard-Atomic _ (archive_squad-Atomic io n t)
  execute-Atomic io (joins r f) h =
      discard-Atomic (join_with_fault io r f) (search atomic_rules depth 4)
  execute-Atomic io (leaves s m t f) h =
      discard-Atomic (leave_with_fault io s m t f) (search atomic_rules depth 4)
  execute-Atomic io (sends r false) h = discard-Atomic _ (send_message-Atomic io r)
  execute-Atomic io (sends r true) h = absurd (cc)
  execute-Atomic io (acknowledges r f) h =
      discard-Atomic (acknowledge_messages_with_fault io r f) (search atomic_rules depth 4)
  execute-Atomic io (claims e c) h =
      discard-Atomic (claim_instance sha256 io e c)
        (search (atomic_rules, step_rules, Unmoved-order) depth 9)
  execute-Atomic io (heartbeats r) h =
      discard-Atomic (heartbeat_instance sha256 io r)
        (search (atomic_rules, step_rules, Unmoved-order) depth 9)
  execute-Atomic io (resumes r f) h =
      discard-Atomic (resume_instance_with_fault sha256 io r f)
        (search (atomic_rules, step_rules, Unmoved-order) depth 9)
  execute-Atomic io (session_joins e r f) h =
      discard-Atomic (join_and_claim_inner sha256 io e r f)
        (search (atomic_rules, step_rules, Unmoved-order) depth 9)
  execute-Atomic io (session_heartbeats s a o p) h =
      discard-Atomic (authenticated_heartbeat sha256 io s a o p)
        (search (atomic_rules, step_rules, Unmoved-order) depth 9)
  execute-Atomic io (session_sends s r) h =
      discard-Atomic (authenticated_send sha256 io s r) (search atomic_rules depth 4)
  execute-Atomic io (session_sends_by_name s r) h =
      discard-Atomic (authenticated_send_by_name sha256 io s r) (search atomic_rules depth 4)
  execute-Atomic io (session_acknowledges s ids) h =
      discard-Atomic (authenticated_acknowledge sha256 io s ids) (search atomic_rules depth 4)
  execute-Atomic io (session_leaves s n) h =
      discard-Atomic (authenticated_leave sha256 io s n) (search atomic_rules depth 4)
  execute-Atomic io (session_archives s i) h =
      discard-Atomic (authenticated_archive sha256 io s i) (search atomic_rules depth 4)
  execute-Atomic io (session_archives_by_name s n) h =
      discard-Atomic (authenticated_archive_by_name sha256 io s n) (search atomic_rules depth 4)
  execute-Atomic io (session_resumes i t c n) h =
      discard-Atomic (authenticated_resume sha256 io i t c n)
        (search (atomic_rules, step_rules, Unmoved-order) depth 9)

  -- An operation that fails changes nothing, whatever SQLite answers to BEGIN and COMMIT and wherever
  -- in its body it fails; the one exception is the send whose test fails it after COMMIT.
  pub execute-failure :
      (io : Io) (op : Operation) (db : Db) (e : RepositoryError)
      → is_atomic op ≡ true
      → (execute sha256 io op db).0 ≡ err e
      → perform sha256 io op db ≡ db
  unfolding perform
  execute-failure io op db e a h = (execute-Atomic io op a).at db e h
