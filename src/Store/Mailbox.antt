-- ===== src/Store/Mailbox.antt =====
-- crates/psst-store/src/authenticated.rs: sending, the inbox page, acknowledgement and transcripts
-- under a session credential.
use psst.Prelude.{
  ℕ, Bool, true, false, not, ◌&&◌, ◌||◌, Option, none, some, List, is_none, is_some_and, length,
  find_row, select_rows, first_by, ◌==◌,
}
use psst.Core.Time.{UnixMillis}
use psst.Core.Id.{SquadId, MembershipId, MessageId}
use psst.Core.Value.{MemberName, MessageBody, DedupeKey, CorrelationId}
use psst.Core.Message.{MessagePriority, matches_retry}
use psst.Store.Error.{RepositoryError, invalid_stored_data}
use psst.Store.Schema.{MembershipRow, MessageRecord, MessageRow}
use psst.Store.Exec.{
  Outcome, Exec, Io, pure, lift, query, reject_if, ok_or, transaction, ◌>>=◌, ◌>>◌,
}
use psst.Store.Roster.{collect}
use psst.Store.Message.{SendMessage, find_by_dedupe, resolve_retry, send_in_transaction}
use psst.Store.Inbox.{pending_inbox_on, acknowledge_on, is_pending}
use psst.Store.Session.{
  AuthenticatedSession, Identity, MessageView, authenticate_historical, authorize_current,
  message_view_on,
}

pub record SendByName : Type 0 where
  pub id : MessageId
  pub recipient : MemberName
  pub recipient_membership_id : Option MembershipId
  pub body : MessageBody
  pub priority : MessagePriority
  pub dedupe_key : DedupeKey
  pub reply_to : Option MessageId
  pub correlation_id : Option CorrelationId

pub record SendOutcome : Type 0 where
  pub message : MessageView
  pub idempotent_replay : Bool

pub record InboxPage : Type 0 where
  pub messages : List MessageView
  pub pending_count : ℕ
  pub highest_priority : Option MessagePriority
  pub oldest_message_id : Option MessageId
  pub recipient_membership : MembershipId

unfoldable pub send_from_name :
    SendByName → SquadId → MembershipId → MembershipId → UnixMillis → SendMessage
send_from_name request squad sender recipient created_at = record {
  id = request.id;
  semantics = record {
    squad = squad;
    sender = sender;
    recipient = recipient;
    body = request.body;
    priority = request.priority;
    reply_to = request.reply_to;
    correlation_id = request.correlation_id;
  };
  dedupe_key = request.dedupe_key;
  created_at = created_at;
}

-- `request.recipient_membership_id.as_ref().is_some_and(|pin| pin != &recipient_id)`.
abbrev pub pin_differs : SendByName → MembershipId → Bool
pin_differs request id = is_some_and request.recipient_membership_id (λ pin. not (pin == id))

-- `WHERE squad_id = ?1 AND normalized_name = ?2 AND left_at IS NULL`.
abbrev pub is_named : SquadId → MemberName → MembershipRow → Bool
is_named squad name m = m.squad_id == squad && (m.normalized_name == name && is_none m.left_at)

-- `ORDER BY CASE priority WHEN 'high' THEN 1 ELSE 0 END DESC LIMIT 1`.
abbrev pub high_first : MessageRow → MessageRow → Bool
high_first a b = elim a.semantics.priority [
  | MessagePriority.high ↦ true
  | MessagePriority.normal ↦ elim b.semantics.priority [
    | MessagePriority.high ↦ false
    | MessagePriority.normal ↦ true
  ]
]

abbrev pub priority_of : Option MessageRow → Option MessagePriority
priority_of none = none
priority_of (some m) = some m.semantics.priority

abbrev pub id_of : Option MessageRow → Option MessageId
id_of none = none
id_of (some m) = some m.id

module _ (sha256 : List ℕ → List ℕ) where
  unfoldable pub replay_or_send :
      AuthenticatedSession → SendMessage → Option (Outcome MessageRecord) → Exec MessageRecord
  unfolding authorize_current send_in_transaction ◌>>=◌
  replay_or_send session request (some result) = lift result
  replay_or_send session request none = do
    authorize_current sha256 session
    send_in_transaction sha256 request

  unfoldable pub authenticated_send : Io → AuthenticatedSession → SendMessage → Exec MessageRecord
  unfolding transaction authenticate_historical resolve_retry replay_or_send
  authenticated_send io session request = transaction io do
    identity ← authenticate_historical sha256 session
    reject_if
        (not (request.semantics.sender == identity.membership)
          || not (request.semantics.squad == identity.squad))
        RepositoryError.not_member
    retry ← resolve_retry sha256 request
    replay_or_send session request retry

  -- The branch of a key that is on record: the stored message, unless something differs.
  unfoldable pub replay_by_name :
      AuthenticatedSession → SendByName → Identity → MembershipId → Exec SendOutcome
  unfolding find_by_dedupe message_view_on send_from_name ◌>>=◌
  replay_by_name session request identity recipient_id = do
    reject_if (pin_differs request recipient_id) RepositoryError.idempotency_conflict
    let candidate =
        send_from_name request identity.squad identity.membership recipient_id session.now
    found ← find_by_dedupe sha256 candidate
    existing ← ok_or found invalid_stored_data
    reject_if (not (matches_retry existing.semantics candidate.semantics))
        RepositoryError.idempotency_conflict
    seen ← query (λ db. message_view_on db existing)
    view ← lift seen
    reject_if (not (view.recipient == request.recipient)) RepositoryError.idempotency_conflict
    pure (record { message = view; idempotent_replay = true })

  -- The branch of a new key.
  unfoldable pub fresh_by_name : AuthenticatedSession → SendByName → Identity → Exec SendOutcome
  unfolding authorize_current send_in_transaction message_view_on send_from_name ◌>>=◌
  fresh_by_name session request identity = do
    authorize_current sha256 session
    member ← query (λ db. find_row (is_named identity.squad request.recipient) db.memberships)
    recipient ← ok_or member RepositoryError.recipient_not_found
    reject_if (pin_differs request recipient.id) RepositoryError.recipient_not_found
    sent ←
        send_in_transaction sha256
          (send_from_name request identity.squad identity.membership recipient.id session.now)
    seen ← query (λ db. message_view_on db sent)
    view ← lift seen
    pure (record { message = view; idempotent_replay = false })

  abbrev pub is_keyed : Identity → DedupeKey → MessageRow → Bool
  is_keyed identity key m =
      m.semantics.squad == identity.squad
      && (m.semantics.sender == identity.membership && m.dedupe_key == key)

  unfoldable pub replay_or_fresh :
      AuthenticatedSession → SendByName → Identity → Option MessageRow → Exec SendOutcome
  unfolding replay_by_name fresh_by_name
  replay_or_fresh session request identity (some m) =
      replay_by_name session request identity m.semantics.recipient
  replay_or_fresh session request identity none = fresh_by_name session request identity

  unfoldable pub authenticated_send_by_name :
      Io → AuthenticatedSession → SendByName → Exec SendOutcome
  unfolding transaction authenticate_historical replay_or_fresh
  authenticated_send_by_name io session request = transaction io do
    identity ← authenticate_historical sha256 session
    existing ← query (λ db. find_row (is_keyed identity request.dedupe_key) db.messages)
    replay_or_fresh session request identity existing

  unfoldable pub authenticated_pending_page : Io → AuthenticatedSession → ℕ → Exec InboxPage
  unfolding transaction authorize_current pending_inbox_on message_view_on
  authenticated_pending_page io session limit = transaction io do
    identity ← authorize_current sha256 session
    pending ← query (λ db. select_rows (is_pending identity.membership) db.messages)
    oldest ← query (λ db. find_row (is_pending identity.membership) db.messages)
    records ← pending_inbox_on sha256 (record { recipient = identity.membership; limit = limit })
    viewed ← query (λ db. collect (message_view_on db) records)
    messages ← lift viewed
    pure (record {
      messages = messages;
      pending_count = length pending;
      highest_priority = priority_of (first_by high_first pending);
      oldest_message_id = id_of oldest;
      recipient_membership = identity.membership;
    })

  unfoldable pub authenticated_pending : Io → AuthenticatedSession → ℕ → Exec (List MessageRecord)
  unfolding transaction authorize_current pending_inbox_on
  authenticated_pending io session limit = transaction io do
    identity ← authorize_current sha256 session
    pending_inbox_on sha256 (record { recipient = identity.membership; limit = limit })

  unfoldable pub authenticated_acknowledge :
      Io → AuthenticatedSession → List MessageId → Exec (Unit {0})
  unfolding transaction authorize_current acknowledge_on
  authenticated_acknowledge io session message_ids = transaction io do
    identity ← authorize_current sha256 session
    acknowledge_on
        (record {
          recipient = identity.membership;
          message_ids = message_ids;
          acknowledged_at = session.now;
        })
        false
