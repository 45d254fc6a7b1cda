-- ===== src/Store/History/Arrivals.antt =====
-- Mail of a member arrives only by a send to it, in the operations of crates/psst-store/src.
pub mod Named
use psst.Prelude.{
  ℕ, ◌≡◌, Bool, true, false, refl, Option, none, some, List, [], ◌∷◌, ◌++◌, ◌&&◌, ◌==◌, inl, inr,
  sym, ap, subst, ◌∙◌, find_row, exists_row, update_rows, is_none, Bool-cases, if◌then◌else◌, arith,
}
use psst.Core.Error.{ok, err}
use psst.Core.Id.{MembershipId, MessageId}
use psst.Core.Time.{UnixMillis}
use psst.Store.Schema.{Db, MembershipRow, MessageRow, MessageRecord}
use psst.Store.Error.{RepositoryError}
use psst.Store.Exec.{Exec, Io, Outcome, query, lift, reject_if, pure, ok_or, ◌>>=◌, ◌>>◌}
use psst.Store.Exec.Inversion.{
  bind-Answered, bind-Read, query-then, lift-ok, pure-ok, ok_or-ok, guard-ok, Unmoved-mid,
}
use psst.Store.Exec.Atomic.{transaction-ok}
use psst.Core.Message.{MessageSemantics}
use psst.Store.Session.Delivery.{replay_by_name-same}
use psst.Store.Exec.Steps.{IsPreorder, Steps, step_rules}
use psst.Store.Insert.Cases.{
  insert_squad-step, insert_squad_if_new-step, insert_agent-step, insert_membership_if_new-step,
  insert_instance_row-step, insert_message-step,
}
use psst.Store.Insert.{insert_message}
use psst.Store.Message.{SendMessage, new_row, commit_new, retry_or_new, send_in_transaction}
use psst.Store.Session.{
  AuthenticatedSession, Identity, MessageView, message_view_on, authenticate_historical,
  authorize_current,
}
use psst.Store.Session.Sends.{authenticate_historical-same, authorize_current-same}
use psst.Store.Mailbox.{
  SendByName, SendOutcome, send_from_name, is_named, pin_differs, is_keyed, fresh_by_name,
  replay_by_name, replay_or_fresh, authenticated_send_by_name,
}
use psst.Store.Message.Retry.{OnRecord, send-OnRecord}
use psst.Store.Repository.{new_squad, new_member_row, update_archived, close_instances, mark_left}
use psst.Store.Inbox.{is_pending, is_owned, acknowledged_row, acknowledge_one}
use psst.Store.Instance.{instance_row, update_observed}
use psst.Store.History.Writes.{RespectsOther}
use psst.Store.History.Local.{send_in_transaction-at}

-- A message of the member is pending.
abbrev pub has_mail : MembershipId → Db → Bool
has_mail k db = exists_row (is_pending k) db.messages

-- No mail has come in between.
pub record NoNew (k : MembershipId) (a b : Db) : Type 0 where
  pub had : has_mail k b ≡ true → has_mail k a ≡ true

NoNew-order : (k : MembershipId) → IsPreorder (NoNew k)
NoNew-order k = record {
  same = λ db. record { had = λ h. h };
  compose = λ a b c h g. record { had = λ e. h.had (g.had e) };
}

-- The messages are as they were.
pub still : (k : MembershipId) (a b : Db) → b.messages ≡ a.messages → NoNew k a b
still k a b e = record { had = λ h. subst (λ x. exists_row (is_pending k) x ≡ true) e h }

exists_row-append :
    (p : MessageRow → Bool) (xs : List MessageRow) (m : MessageRow)
    → p m ≡ false
    → exists_row p (xs ++ m ∷ []) ≡ true
    → exists_row p xs ≡ true
unfolding exists_row
exists_row-append p [] m n h = absurd (ground arith)
exists_row-append p (x ∷ xs) m n h = ground (arith, exists_row-append p xs m n)

pending-acknowledged :
    (k recipient : MembershipId) (t : UnixMillis) (id : MessageId) (xs : List MessageRow)
    → exists_row (is_pending k) (
        update_rows
          (λ m. is_owned recipient id m && is_none m.acknowledged_at)
          (acknowledged_row t)
          xs)
      ≡ true
    → exists_row (is_pending k) xs ≡ true
unfolding exists_row
pending-acknowledged k recipient t id [] h = h
pending-acknowledged k recipient t id (x ∷ xs) h =
    elim (Bool-cases (is_owned recipient id x && is_none x.acknowledged_at)) [
      | inl hit ↦ ground (arith, pending-acknowledged k recipient t id xs)
      | inr miss ↦ ground (arith, pending-acknowledged k recipient t id xs)
    ]

module _ (sha256 : List ℕ → List ℕ) (k : MembershipId) where
  pub NoNew-other : RespectsOther sha256 (NoNew k)
  unfolding close_instances mark_left acknowledge_one update_observed update_archived
  NoNew-other = record {
    order = NoNew-order k;
    squad = λ i n m t. record {
      at = λ db.
          insert_squad-step (NoNew k) db (still k db db refl) (new_squad i n m t)
            λ _. still k db _ refl;
    };
    squad_if_new = λ i n m t. record {
      at = λ db.
          insert_squad_if_new-step (NoNew k) db (still k db db refl) (new_squad i n m t)
            λ _ _. still k db _ refl;
    };
    archived = λ test t. record { at = λ db. still k db _ refl };
    agent = λ a. record {
      at = λ db. insert_agent-step (NoNew k) db (still k db db refl) a λ _. still k db _ refl;
    };
    member = λ r s. record {
      at = λ db.
          insert_membership_if_new-step (NoNew k) db (still k db db refl) (new_member_row r s)
            λ _ _. still k db _ refl;
    };
    left = λ id t db. still k db _ refl;
    instance_new = λ c token t. record {
      at = λ db.
          insert_instance_row-step (NoNew k) db (still k db db refl) (instance_row sha256 c token t)
            λ _. still k db _ refl;
    };
    closed = λ test t db. still k db _ refl;
    observed = λ test a s t e db. still k db _ refl;
    acknowledged =
        λ recipient t id db. record { had = pending-acknowledged k recipient t id db.messages };
  }

  -- A message that is stored for another member.
  elsewhere-Steps :
      (r : SendMessage)
      → (r.semantics.recipient == k) ≡ false
      → (sequence : ℕ) → Steps (NoNew k) (insert_message (new_row sha256 r sequence))
  elsewhere-Steps r n sequence = record {
    at = λ db.
        insert_message-step (NoNew k) db (still k db db refl) (new_row sha256 r sequence)
          λ _. record { had = exists_row-append (is_pending k) db.messages _ (ground arith) };
  }

  pub send-elsewhere :
      (r : SendMessage)
      → (r.semantics.recipient == k) ≡ false
      → Steps (NoNew k) (send_in_transaction sha256 r)
  send-elsewhere r n = send_in_transaction-at NoNew-other r (elsewhere-Steps r n)
