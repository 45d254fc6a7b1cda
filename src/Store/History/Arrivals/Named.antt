-- ===== src/Store/History/Arrivals/Named.antt =====
-- Mail of a member arrives only by a send to it: the sends by name of
-- crates/psst-store/src/authenticated.rs.
use psst.Prelude.{
  ℕ, ◌≡◌, false, Option, none, some, List, ◌==◌, sym, ap, subst, ◌∙◌, find_row, arith,
}
use psst.Core.Error.{ok}
use psst.Core.Id.{MembershipId}
use psst.Store.Schema.{Db, MembershipRow, MessageRow, MessageRecord}
use psst.Store.Error.{RepositoryError}
use psst.Store.Exec.{Exec, Io, query, lift, reject_if, pure, ok_or, ◌>>=◌, ◌>>◌}
use psst.Store.Exec.Inversion.{
  bind-Answered, bind-Read, query-then, lift-ok, pure-ok, ok_or-ok, guard-ok, Unmoved-mid,
}
use psst.Store.Exec.Atomic.{transaction-ok}
use psst.Core.Message.{MessageSemantics}
use psst.Store.Session.Delivery.{replay_by_name-same}
use psst.Store.Message.{SendMessage, send_in_transaction}
use psst.Store.Session.{
  AuthenticatedSession, Identity, MessageView, message_view_on, authenticate_historical,
  authorize_current,
}
use psst.Store.Session.Sends.{authenticate_historical-same, authorize_current-same}
use psst.Store.Mailbox.{
  SendByName, SendOutcome, send_from_name, is_named, pin_differs, is_keyed, fresh_by_name,
  replay_by_name, replay_or_fresh, authenticated_send_by_name,
}
use psst.Store.Message.Retry.{OnRecord, send-OnRecord}
use psst.Store.History.Arrivals.{NoNew, still, send-elsewhere}

view-message :
    (db : Db) (m : MessageRecord) (v : MessageView) → message_view_on db m ≡ ok v → v.message ≡ m
unfolding message_view_on find_row
view-message db m v h = ground arith

sent_recipient :
    (sha256 : List ℕ → List ℕ) (request : SendMessage) (db : Db) (m : MessageRecord)
    → OnRecord sha256 request db m
    → m.semantics.recipient ≡ request.semantics.recipient
sent_recipient sha256 request db m r =
    ap (λ (x : MessageRecord). x.semantics.recipient) r.shown
    ∙ ap (λ (x : MessageSemantics). x.recipient) r.same

-- The end of a fresh send: the view of the message that was stored.
abbrev shown : MessageRecord → Exec SendOutcome
shown m = do
  seen ← query (λ db. message_view_on db m)
  view ← lift seen
  pure (record { message = view; idempotent_replay = false })

shown-sent :
    (m : MessageRecord) (db after : Db) (o : SendOutcome)
    → shown m db ≡ (ok o, after)
    → (o.message.message ≡ m) × (after ≡ db)
shown-sent m db after o h =
    let a =
      bind-Answered (lift (message_view_on db m)) _ db after o (query-then _ _ db after o h) in
    let (viewed, kept) = lift-ok (message_view_on db m) db a.mid a.value a.first in
    let (answer, same) = pure-ok _ o a.mid after a.then in
    (
      subst (λ (x : SendOutcome). x.message.message ≡ m) answer (view-message db m a.value viewed),
      same ∙ kept,
    )

module _ (sha256 : List ℕ → List ℕ) (k : MembershipId) where
  -- A fresh send, from the member that its name finds.
  abbrev delivered_to :
      AuthenticatedSession → SendByName → Identity → MembershipRow → Exec SendOutcome
  delivered_to session r i recipient = do
    reject_if (pin_differs r recipient.id) RepositoryError.recipient_not_found
    sent ←
        send_in_transaction sha256 (send_from_name r i.squad i.membership recipient.id session.now)
    shown sent

  delivered_to-elsewhere :
      (session : AuthenticatedSession) (r : SendByName) (i : Identity) (m : MembershipRow)
      (db after : Db) (o : SendOutcome)
      → delivered_to session r i m db ≡ (ok o, after)
      → (o.message.message.semantics.recipient == k) ≡ false
      → NoNew k db after
  unfolding send_from_name
  delivered_to-elsewhere session r i m db after o h n =
      let (pin, go) = guard-ok (pin_differs r m.id) _ _ db after o h in
      let request = send_from_name r i.squad i.membership m.id session.now in
      let c = bind-Answered (send_in_transaction sha256 request) shown db after o go in
      let (sent, kept) = shown-sent c.value c.mid after o c.then in
      let to : o.message.message.semantics.recipient ≡ m.id =
        ap (λ (x : MessageRecord). x.semantics.recipient) sent
        ∙ sent_recipient sha256 request c.mid c.value
            (send-OnRecord sha256 request db c.mid c.value c.first) in
      let step =
        (send-elsewhere sha256 k request (subst (λ (x : MembershipId). (x == k) ≡ false) to n)).at
          db in
      subst (λ (d : Db). NoNew k db d) (ap (λ x. x.1) c.first ∙ sym kept) step

  fresh_by_name-elsewhere :
      (session : AuthenticatedSession) (r : SendByName) (i : Identity) (db after : Db)
      (o : SendOutcome)
      → fresh_by_name sha256 session r i db ≡ (ok o, after)
      → (o.message.message.semantics.recipient == k) ≡ false
      → NoNew k db after
  unfolding fresh_by_name
  fresh_by_name-elsewhere session r i db after o h n =
      let named : Db → Option MembershipRow =
        λ d. find_row (is_named i.squad r.recipient) d.memberships in
      let found : Option MembershipRow → Exec MembershipRow =
        λ m. ok_or m RepositoryError.recipient_not_found in
      let a =
        bind-Read (authorize_current sha256 session)
          (λ _. query named >>= λ m. found m >>= delivered_to session r i) db after o
          (authorize_current-same sha256 session) h in
      let b =
        bind-Answered (found (named db)) (delivered_to session r i) db after o
          (query-then named (λ m. found m >>= delivered_to session r i) db after o a.then) in
      let (hit, kept) = ok_or-ok (named db) _ db b.mid b.value b.first in
      subst (λ (d : Db). NoNew k d after) kept
        (delivered_to-elsewhere session r i b.value b.mid after o b.then n)

  replay_or_fresh-elsewhere :
      (session : AuthenticatedSession) (r : SendByName) (i : Identity) (row : Option MessageRow)
      (db after : Db) (o : SendOutcome)
      → replay_or_fresh sha256 session r i row db ≡ (ok o, after)
      → (o.message.message.semantics.recipient == k) ≡ false
      → NoNew k db after
  unfolding replay_or_fresh
  replay_or_fresh-elsewhere session r i none db after o h n =
      fresh_by_name-elsewhere session r i db after o h n
  replay_or_fresh-elsewhere session r i (some m) db after o h n = still k db after (
      ap (λ (d : Db). d.messages)
        (Unmoved-mid (replay_by_name sha256 session r i m.semantics.recipient) db after o
          (replay_by_name-same sha256 session r i m.semantics.recipient) h))

  -- A send that is answered with a message for another member brings this one no mail.
  pub send_by_name-elsewhere :
      (io : Io) (session : AuthenticatedSession) (r : SendByName) (db after : Db) (o : SendOutcome)
      → authenticated_send_by_name sha256 io session r db ≡ (ok o, after)
      → (o.message.message.semantics.recipient == k) ≡ false
      → NoNew k db after
  unfolding authenticated_send_by_name
  send_by_name-elsewhere io session r db after o h n =
      let found : Identity → Db → Option MessageRow =
        λ i d. find_row (is_keyed sha256 i r.dedupe_key) d.messages in
      let a =
        bind-Read (authenticate_historical sha256 session)
          (λ i. query (found i) >>= replay_or_fresh sha256 session r i) db after o
          (authenticate_historical-same sha256 session) (transaction-ok io _ db after o h) in
      let go =
        query-then (found a.value) (replay_or_fresh sha256 session r a.value) db after o a.then in
      replay_or_fresh-elsewhere session r a.value (found a.value db) db after o go n
