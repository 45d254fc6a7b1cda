-- ===== src/Tests/Histories.antt =====
-- Histories of operations on a new database and on the small squad.
use psst.Prelude.{◌≡◌, refl, Bool, none, some, List, [], ◌∷◌, find_row, exists_row, ◌==◌}
use psst.Core.Error.{err}
use psst.Store.Error.{SqliteError, RepositoryError, from_sqlite}
use psst.Store.Schema.{Db, InstanceRow, MessageRow, empty}
use psst.Store.Exec.{Io, reliable}
use psst.Store.Message.{send_message_with_commit_fault}
use psst.Store.Invariant.{WellFormed}
use psst.Store.History.{Operation, execute, perform, run, joins, sends, leaves, archives_squad}
use psst.Store.Invariant.Links.{Linked}
use psst.Store.History.Linked.{run-Linked}
use psst.Store.History.Sound.{run-WellFormed}
use psst.Store.History.Failures.{execute-failure}
use psst.Store.History.Final.{
  archived_squad-final, left_membership-final, closed_instance-final, stored_message-kept,
  acknowledged_message-final,
}
use psst.Tests.{digest, people, request, old_team, carol, old_instance, sent_row, after_send}

-- COMMIT finds the database busy.
abbrev busy : Io
busy = record { begin = none; commit = some SqliteError.database_busy }

abbrev founding : List (Io × Operation)
founding =
    (
      reliable,
      joins
          (record {
            squad_name = "team";
            mission_if_missing = some "ship";
            squad_id_if_missing = "sqd_team";
            agent_id = "agt_alice";
            membership_id = "mem_alice";
            member_name = "alice";
            role = "dev";
            joined_at = 100;
          })
          none,
    )
    ∷ (busy, archives_squad "team" 200)
    ∷ (reliable, leaves "sqd_team" "mem_alice" 300 Bool.false)
    ∷ []

run-WellFormed_example : WellFormed digest (run digest founding empty)
run-WellFormed_example = run-WellFormed digest founding

busy_send :
    (execute digest busy (sends request Bool.false) people).0 ≡ err RepositoryError.database_busy
unfolding execute find_row exists_row send_message_with_commit_fault from_sqlite
busy_send = refl

execute-failure_example : perform digest busy (sends request Bool.false) people ≡ people
execute-failure_example =
    execute-failure digest busy (sends request Bool.false) people RepositoryError.database_busy refl
      busy_send

old_team_found : find_row (λ r. r.id == "sqd_old") people.squads ≡ some old_team
unfolding find_row
old_team_found = refl

archived_squad-final_example :
    find_row (λ r. r.id == "sqd_old") (run digest founding people).squads ≡ some old_team
archived_squad-final_example =
    archived_squad-final digest founding people "sqd_old" old_team old_team_found refl

carol_found : find_row (λ r. r.id == "mem_carol") people.memberships ≡ some carol
unfolding find_row
carol_found = refl

left_membership-final_example :
    find_row (λ r. r.id == "mem_carol") (run digest founding people).memberships ≡ some carol
left_membership-final_example =
    left_membership-final digest founding people "mem_carol" carol carol_found refl

old_instance_found : find_row (λ r. r.id == "ins_old") people.instances ≡ some old_instance
unfolding find_row
old_instance_found = refl

closed_instance-final_example :
    (j : InstanceRow) × (find_row (λ r. r.id == "ins_old") (run digest founding people).instances
      ≡ some j)
    × ((j.membership_id ≡ "mem_carol")
        × (j.resume_token_hash ≡ old_instance.resume_token_hash)
        × (j.closed_at ≡ some 150))
closed_instance-final_example =
    closed_instance-final digest founding people "ins_old" old_instance old_instance_found refl

sent_found : find_row (λ r. r.id == "msg_1") after_send.messages ≡ some sent_row
unfolding find_row
sent_found = refl

stored_message-kept_example :
    (n : MessageRow) × (find_row (λ r. r.id == "msg_1") (run digest founding after_send).messages
      ≡ some n)
    × ((n.message ≡ sent_row.message) × (n.body_hash ≡ sent_row.body_hash))
stored_message-kept_example =
    stored_message-kept digest founding after_send "msg_1" sent_row sent_found

abbrev read_row : MessageRow
read_row = record sent_row { acknowledged_at = some 310 }

abbrev after_read : Db
after_read = record after_send { messages = read_row ∷ [] }

read_found : find_row (λ r. r.id == "msg_1") after_read.messages ≡ some read_row
unfolding find_row
read_found = refl

acknowledged_message-final_example :
    (n : MessageRow) × (find_row (λ r. r.id == "msg_1") (run digest founding after_read).messages
      ≡ some n)
    × (n.acknowledged_at ≡ some 310)
acknowledged_message-final_example =
    acknowledged_message-final digest founding after_read "msg_1" read_row 310 read_found refl

run-Linked_example : Linked (run digest founding empty)
run-Linked_example = run-Linked digest founding
