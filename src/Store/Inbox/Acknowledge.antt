-- ===== src/Store/Inbox/Acknowledge.antt =====
-- Acknowledgements of crates/psst-store/src/inbox.rs: all of the messages asked for, or none.
use psst.Prelude.{
  ◌≡◌, ◌≤◌, refl, ap, sym, subst, ◌∙◌, true, false, ◌&&◌, List, [], ◌∷◌, arith, length, is_none,
  exists_row, update_row, update_rows, if◌then◌else◌, Bool-cases, inl, inr,
}
use psst.Core.Error.{ok, err}
use psst.Core.Time.{UnixMillis}
use psst.Core.Id.{MembershipId, MessageId}
use psst.Store.Error.{RepositoryError}
use psst.Store.Schema.{Db, MessageRow}
use psst.Store.Exec.{Outcome, Io, reliable, transaction}
use psst.Store.Exec.Atomic.{transaction-reliable, transaction-reliable_err}
use psst.Store.Inbox.{
  AcknowledgeMessages, is_owned, acknowledged_row, check_owned, acknowledge_all, acknowledge_on,
  acknowledge_messages, first_only,
}
use psst.Store.Inbox.Updates.{
  is_asked, owns_all, acknowledged, asked_again, acknowledge_all-acknowledged,
}
use psst.Store.Inbox.Checks.{Checked, check_owned-Checked, check_owned-refused}

first_only-false : (ids : List MessageId) → first_only false ids ≡ ids
first_only-false [] = refl
first_only-false (id ∷ ids) = refl

module _ (recipient : MembershipId) (t : UnixMillis) where
  same_asked :
      (xs ys : List MessageId) (rows : List MessageRow)
      → ((m : MessageRow) → is_asked recipient xs m ≡ is_asked recipient ys m)
      → update_rows
          (λ m. is_asked recipient xs m && is_none m.acknowledged_at)
          (acknowledged_row t)
          rows
        ≡ update_rows
            (λ m. is_asked recipient ys m && is_none m.acknowledged_at)
            (acknowledged_row t)
            rows
  same_asked xs ys [] h = refl
  same_asked xs ys (r ∷ rows) h = rw (h r, same_asked xs ys rows h)

  Checked-update :
      (ids : List MessageId) (db : Db) (c : Checked recipient [] ids db)
      → acknowledge_all recipient t (first_only false c.result) db ≡ acknowledged recipient t ids db
  Checked-update ids db c =
      ap (λ xs. acknowledge_all recipient t xs db) (first_only-false c.result)
      ∙ acknowledge_all-acknowledged recipient t c.result db
      ∙ ap (λ rows. record db { messages = rows }) (same_asked c.result ids db.messages c.asked)

abbrev asking : MembershipId → UnixMillis → List MessageId → AcknowledgeMessages
asking recipient t ids = record { recipient = recipient; message_ids = ids; acknowledged_at = t }

acknowledge_on-owned :
    (request : AcknowledgeMessages) (db after : Db) (distinct : List MessageId)
    → check_owned request.recipient [] request.message_ids db ≡ ok distinct
    → acknowledge_all request.recipient request.acknowledged_at (first_only false distinct) db
      ≡ after
    → acknowledge_on request false db ≡ (ok tt, after)
unfolding acknowledge_on
acknowledge_on-owned request db after distinct e h = ground arith

acknowledge_on-refused :
    (request : AcknowledgeMessages) (db : Db) (e : RepositoryError)
    → check_owned request.recipient [] request.message_ids db ≡ err e
    → (acknowledge_on request false db).0 ≡ err e
unfolding acknowledge_on
acknowledge_on-refused request db e h = ground arith

acknowledge_messages-in_range :
    (io : Io) (request : AcknowledgeMessages) (db : Db)
    → 1 ≤ length request.message_ids
    → length request.message_ids ≤ 100
    → acknowledge_messages io request db ≡ transaction io (acknowledge_on request false) db
unfolding acknowledge_messages
acknowledge_messages-in_range io request db l u = ground arith

all_owned :
    (request : AcknowledgeMessages) (db : Db)
    → 1 ≤ length request.message_ids
    → length request.message_ids ≤ 100
    → owns_all request.recipient request.message_ids db ≡ true
    → acknowledge_messages reliable request db
      ≡ (ok tt, acknowledged request.recipient request.acknowledged_at request.message_ids db)
all_owned request db l u h =
    let after = acknowledged request.recipient request.acknowledged_at request.message_ids db in
    let c = check_owned-Checked request.recipient [] request.message_ids db h in
    acknowledge_messages-in_range reliable request db l u
    ∙ transaction-reliable (acknowledge_on request false) db after tt (
        acknowledge_on-owned request db after c.result c.answer
          (Checked-update request.recipient request.acknowledged_at request.message_ids db c))

not_all_owned :
    (request : AcknowledgeMessages) (db : Db)
    → 1 ≤ length request.message_ids
    → length request.message_ids ≤ 100
    → owns_all request.recipient request.message_ids db ≡ false
    → acknowledge_messages reliable request db ≡ (err RepositoryError.not_found, db)
not_all_owned request db l u h =
    acknowledge_messages-in_range reliable request db l u
    ∙ transaction-reliable_err (acknowledge_on request false) db RepositoryError.not_found (
        acknowledge_on-refused request db RepositoryError.not_found
          (check_owned-refused request.recipient [] request.message_ids db refl h))

-- A request for 1 to 100 messages is all or nothing: if each of them is on record as the recipient's,
-- it is answered, and exactly those of them that were pending get the time of the request; if one is
-- not, the answer is `not_found` and nothing changes. Repeated ids make no difference.
pub acknowledge_messages-all_or_none :
    (request : AcknowledgeMessages) (db : Db)
    → 1 ≤ length request.message_ids
    → length request.message_ids ≤ 100
    → acknowledge_messages reliable request db ≡ (
        if owns_all request.recipient request.message_ids db
        then (ok tt, acknowledged request.recipient request.acknowledged_at request.message_ids db)
        else (err RepositoryError.not_found, db))
acknowledge_messages-all_or_none request db l u =
    elim (Bool-cases (owns_all request.recipient request.message_ids db)) [
      | inl h ↦ rw h (all_owned request db l u h)
      | inr h ↦ rw h (not_all_owned request db l u h)
    ]

module _ (recipient : MembershipId) (t : UnixMillis) (ids : List MessageId) where
  owned-kept :
      (id : MessageId) (rows : List MessageRow)
      → exists_row (is_owned recipient id) (
          update_rows
            (λ m. is_asked recipient ids m && is_none m.acknowledged_at)
            (acknowledged_row t)
            rows)
        ≡ exists_row (is_owned recipient id) rows
  unfolding exists_row
  owned-kept id [] = refl
  owned-kept id (r ∷ rows) = ground (arith, owned-kept id rows)

  owns_all-kept :
      (asked : List MessageId) (db : Db)
      → owns_all recipient asked (acknowledged recipient t ids db) ≡ owns_all recipient asked db
  owns_all-kept [] db = refl
  owns_all-kept (id ∷ asked) db = rw (owned-kept id db.messages, owns_all-kept asked db)

  settled_row :
      (later : UnixMillis) (m : MessageRow)
      → update_row
          (λ m. is_asked recipient ids m && is_none m.acknowledged_at)
          (acknowledged_row later)
          (update_row
            (λ m. is_asked recipient ids m && is_none m.acknowledged_at)
            (acknowledged_row t)
            m)
        ≡ update_row
            (λ m. is_asked recipient ids m && is_none m.acknowledged_at)
            (acknowledged_row t)
            m
  settled_row later m = ground (arith, asked_again recipient t ids m)

  settled :
      (later : UnixMillis) (rows : List MessageRow)
      → update_rows
          (λ m. is_asked recipient ids m && is_none m.acknowledged_at)
          (acknowledged_row later)
          (update_rows
            (λ m. is_asked recipient ids m && is_none m.acknowledged_at)
            (acknowledged_row t)
            rows)
        ≡ update_rows
            (λ m. is_asked recipient ids m && is_none m.acknowledged_at)
            (acknowledged_row t)
            rows
  settled later [] = refl
  settled later (r ∷ rows) = rw (settled_row later r, settled later rows)

answered_range :
    (io : Io) (request : AcknowledgeMessages) (db after : Db)
    → acknowledge_messages io request db ≡ (ok tt, after)
    → (1 ≤ length request.message_ids) × (length request.message_ids ≤ 100)
unfolding acknowledge_messages
answered_range io request db after h = ground arith

answered_owned :
    (request : AcknowledgeMessages) (db after : Db)
    → acknowledge_messages reliable request db ≡ (ok tt, after)
    → (owns_all request.recipient request.message_ids db ≡ true)
      × (after ≡ acknowledged request.recipient request.acknowledged_at request.message_ids db)
answered_owned request db after h =
    let (l, u) = answered_range reliable request db after h in
    elim (Bool-cases (owns_all request.recipient request.message_ids db)) [
      | inl o ↦
          let e = sym h ∙ all_owned request db l u o in
          (o, ap (λ (r : Outcome (Unit {0}) × Db). r.1) e)
      | inr n ↦ let e = sym h ∙ not_all_owned request db l u n in absurd (cc)
    ]

-- Acknowledging is idempotent: the same request, at any later time, is answered again and changes
-- nothing, so the first time stays.
pub acknowledge_messages-again :
    (request : AcknowledgeMessages) (later : UnixMillis) (db after : Db)
    → acknowledge_messages reliable request db ≡ (ok tt, after)
    → acknowledge_messages reliable (record request { acknowledged_at = later }) after
      ≡ (ok tt, after)
acknowledge_messages-again request later db after h =
    let (l, u) = answered_range reliable request db after h in
    let (owned, done) = answered_owned request db after h in
    let again = record request { acknowledged_at = later } in
    let r = request.recipient in
    let t = request.acknowledged_at in
    let ids = request.message_ids in
    let first = acknowledged r t ids db in
    subst
      (λ d. ◌≡◌ {A = Outcome (Unit {0}) × Db} (acknowledge_messages reliable again d) (ok tt, d))
      (sym done)
      (all_owned again first l u (owns_all-kept r t ids ids db ∙ owned)
        ∙ ap (λ rows. (ok tt, record db { messages = rows })) (settled r t ids later db.messages))
