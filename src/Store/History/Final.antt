-- ===== src/Store/History/Final.antt =====
-- What the operations of crates/psst-store/src never take back.
use psst.Prelude.{ℕ, ◌≡◌, subst, some, List, is_none, false, find_row, arith, ◌==◌}
use psst.Prelude.Grows.{find_row-Grows}
use psst.Core.Time.{UnixMillis}
use psst.Core.Id.{SquadId, MembershipId, InstanceId, MessageId}
use psst.Core.State.{archived}
use psst.Store.Schema.{Db, SquadRecord, MembershipRow, InstanceRow, MessageRow}
use psst.Store.Exec.{Io}
use psst.Store.History.{Operation, run, run-respects}
use psst.Store.History.Kept.{Extends, KeptSquad, KeptMembership, KeptInstance, KeptMessage}
use psst.Store.History.Extends.{Extends-respected}

squad_by-kept : (id : SquadId) (a b : SquadRecord) → KeptSquad a b → (b.id == id) ≡ (a.id == id)
squad_by-kept id a b k = ground arith

member_by-kept :
    (id : MembershipId) (a b : MembershipRow) → KeptMembership a b → (b.id == id) ≡ (a.id == id)
member_by-kept id a b k = ground arith

instance_by-kept :
    (id : InstanceId) (a b : InstanceRow) → KeptInstance a b → (b.id == id) ≡ (a.id == id)
instance_by-kept id a b k = ground arith

message_by-kept :
    (id : MessageId) (a b : MessageRow) → KeptMessage a b → (b.id == id) ≡ (a.id == id)
message_by-kept id a b k = ground arith

module _ (sha256 : List ℕ → List ℕ) (ops : List (Io × Operation)) (db : Db) where
  -- The database that the operations leave.
  abbrev later : Db
  later = run sha256 ops db

  grown : Extends db later
  grown = run-respects (Extends-respected sha256) ops db

  -- An archived squad stays as it is: no sequence of operations changes its row or opens it again.
  pub archived_squad-final :
      (id : SquadId) (s : SquadRecord)
      → find_row (λ r. r.id == id) db.squads ≡ some s
      → s.state ≡ archived
      → find_row (λ r. r.id == id) (run sha256 ops db).squads ≡ some s
  archived_squad-final id s h a =
      let (t, found, k) =
        find_row-Grows KeptSquad (λ r. r.id == id) (squad_by-kept id) db.squads later.squads s
          grown.squads h in
      subst (λ r. find_row (λ x. x.id == id) later.squads ≡ some r) (k.final a) found

  -- A membership that has been left stays as it is: no sequence of operations changes its row, so the
  -- member comes back only under a new membership.
  pub left_membership-final :
      (id : MembershipId) (m : MembershipRow)
      → find_row (λ r. r.id == id) db.memberships ≡ some m
      → is_none m.left_at ≡ false
      → find_row (λ r. r.id == id) (run sha256 ops db).memberships ≡ some m
  left_membership-final id m h a =
      let (t, found, k) =
        find_row-Grows KeptMembership (λ r. r.id == id) (member_by-kept id) db.memberships
          later.memberships m grown.memberships h in
      subst (λ r. find_row (λ x. x.id == id) later.memberships ≡ some r) (k.final a) found

  -- A closed instance keeps its owner, its credential's digest and the time of its close across any
  -- sequence of operations.
  pub closed_instance-final :
      (id : InstanceId) (i : InstanceRow)
      → find_row (λ r. r.id == id) db.instances ≡ some i
      → is_none i.closed_at ≡ false
      → (j : InstanceRow) × (find_row (λ r. r.id == id) (run sha256 ops db).instances ≡ some j)
        × ((j.membership_id ≡ i.membership_id)
            × (j.resume_token_hash ≡ i.resume_token_hash)
            × (j.closed_at ≡ i.closed_at))
  closed_instance-final id i h a =
      let (j, found, k) =
        find_row-Grows KeptInstance (λ r. r.id == id) (instance_by-kept id) db.instances
          later.instances i grown.instances h in
      (j, found, (k.membership_id, k.resume_token_hash, k.final a))

  -- A stored message keeps its sequence number, semantics, deduplication key, time and body digest
  -- across any sequence of operations.
  pub stored_message-kept :
      (id : MessageId) (m : MessageRow)
      → find_row (λ r. r.id == id) db.messages ≡ some m
      → (n : MessageRow) × (find_row (λ r. r.id == id) (run sha256 ops db).messages ≡ some n)
        × ((n.message ≡ m.message) × (n.body_hash ≡ m.body_hash))
  stored_message-kept id m h =
      let (n, found, k) =
        find_row-Grows KeptMessage (λ r. r.id == id) (message_by-kept id) db.messages later.messages
          m grown.messages h in
      (n, found, (k.message, k.body_hash))

  -- An acknowledged message keeps the time of its first acknowledgement across any sequence of
  -- operations.
  pub acknowledged_message-final :
      (id : MessageId) (m : MessageRow) (t : UnixMillis)
      → find_row (λ r. r.id == id) db.messages ≡ some m
      → m.acknowledged_at ≡ some t
      → (n : MessageRow) × (find_row (λ r. r.id == id) (run sha256 ops db).messages ≡ some n)
        × (n.acknowledged_at ≡ some t)
  acknowledged_message-final id m t h a =
      let (n, found, k) =
        find_row-Grows KeptMessage (λ r. r.id == id) (message_by-kept id) db.messages later.messages
          m grown.messages h in
      let final = k.final in (n, found, ground arith)
