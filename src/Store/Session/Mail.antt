-- ===== src/Store/Session/Mail.antt =====
-- The mailbox of a credential in crates/psst-store/src/authenticated.rs.
use psst.Prelude.{
  ℕ, ◌≡◌, sym, ap, ◌∙◌, first_by, ◌≤◌, Option, List, min, length, select_rows, find_row,
}
use psst.Core.Error.{ok}
use psst.Core.Id.{MembershipId}
use psst.Store.Schema.{Db, MessageRecord, MessageRow}
use psst.Store.Roster.{collect}
use psst.Store.Exec.{Exec, Io, query, lift, pure, ◌>>=◌}
use psst.Store.Exec.Atomic.{transaction-ok}
use psst.Store.Exec.Inversion.{pure-ok, bind-Read, bind-Answered, query-then}
use psst.Store.Inbox.{InboxQuery, is_pending, pending_inbox, pending_inbox_on}
use psst.Store.Inbox.Page.{IsPrefix, pending_inbox-page}
use psst.Store.Mailbox.{
  InboxPage, priority_of, high_first, id_of, authenticated_pending, authenticated_pending_page,
}
use psst.Store.Session.{AuthenticatedSession, Identity, message_view_on, authorize_current}
use psst.Store.Session.Authority.{Authority, authorize_current-Authority}
use psst.Store.Session.Sends.{authorize_current-same}

module _ (sha256 : List ℕ → List ℕ) where
  abbrev mailbox : ℕ → Identity → InboxQuery
  mailbox limit identity = record { recipient = identity.membership; limit = limit }

  inbox_of :
      (q : InboxQuery) (db after : Db) (ms : List MessageRecord)
      → pending_inbox_on sha256 q db ≡ (ok ms, after)
      → pending_inbox sha256 q db ≡ (ok ms, after)
  unfolding pending_inbox
  inbox_of q db after ms h = h

  -- What a credential reads of an inbox is its own: a page that is answered needs authority, holds the
  -- first pending messages of the credential's member in stored order, at most as many as asked for and
  -- at most 100, and changes nothing.
  pub authenticated_pending-own :
      (io : Io) (session : AuthenticatedSession) (limit : ℕ) (db after : Db)
      (ms : List MessageRecord)
      → authenticated_pending sha256 io session limit db ≡ (ok ms, after)
      → (identity : Identity) × Authority sha256 session db identity
        × ((after ≡ db)
            × (IsPrefix ms (select_rows (is_pending identity.membership) db.messages)
                × (length ms ≤ min limit 100)))
  unfolding authenticated_pending
  authenticated_pending-own io session limit db after ms h =
      let a =
        bind-Read (authorize_current sha256 session)
          (λ identity. pending_inbox_on sha256 (mailbox limit identity)) db after ms
          (authorize_current-same sha256 session) (transaction-ok io _ db after ms h) in
      let q = mailbox limit a.value in
      let ((same, first), (bound, _)) =
        pending_inbox-page sha256 q db after ms (inbox_of q db after ms a.then) in
      (
        a.value,
        authorize_current-Authority sha256 session db db a.value a.first,
        (same, (first, bound)),
      )

  -- The end of a page: the messages that fit, beside what the whole inbox says.
  abbrev filled : Identity → ℕ → List MessageRow → Option MessageRow → Exec InboxPage
  filled identity limit pending oldest = do
    records ← pending_inbox_on sha256 (mailbox limit identity)
    viewed ← query (λ db. collect (message_view_on db) records)
    messages ← lift viewed
    pure (record {
      messages = messages;
      pending_count = length pending;
      highest_priority = priority_of (first_by high_first pending);
      oldest_message_id = id_of oldest;
      recipient_membership = identity.membership;
    })

  filled-count :
      (i : Identity) (limit : ℕ) (pending : List MessageRow) (oldest : Option MessageRow)
      (db after : Db) (page : InboxPage)
      → filled i limit pending oldest db ≡ (ok page, after)
      → (page.pending_count ≡ length pending) × (page.recipient_membership ≡ i.membership)
  filled-count i limit pending oldest db after page h =
      let b = bind-Answered (pending_inbox_on sha256 (mailbox limit i)) _ db after page h in
      let c =
        bind-Answered (lift (collect (message_view_on b.mid) b.value)) _ b.mid after page
          (query-then _ _ b.mid after page b.then) in
      let (answer, _) = pure-ok _ page c.mid after c.then in
      (
        sym (ap (λ (p : InboxPage). p.pending_count) answer),
        sym (ap (λ (p : InboxPage). p.recipient_membership) answer),
      )

  -- The count of a page is that of the pending messages of its member.
  pub authenticated_pending_page-count :
      (io : Io) (session : AuthenticatedSession) (limit : ℕ) (db after : Db) (page : InboxPage)
      → authenticated_pending_page sha256 io session limit db ≡ (ok page, after)
      → page.pending_count ≡ length (select_rows (is_pending page.recipient_membership) db.messages)
  unfolding authenticated_pending_page
  authenticated_pending_page-count io session limit db after page h =
      let rows : Identity → Db → List MessageRow =
        λ i d. select_rows (is_pending i.membership) d.messages in
      let first : Identity → Db → Option MessageRow =
        λ i d. find_row (is_pending i.membership) d.messages in
      let a =
        bind-Read (authorize_current sha256 session)
          (λ i. query (rows i) >>= λ pending. query (first i) >>= filled i limit pending) db after
          page (authorize_current-same sha256 session) (transaction-ok io _ db after page h) in
      let pending = rows a.value db in
      let b =
        query-then (rows a.value) (λ ps. query (first a.value) >>= filled a.value limit ps) db after
          page a.then in
      let (counted, own) =
        filled-count a.value limit pending (first a.value db) db after page
          (query-then (first a.value) (filled a.value limit pending) db after page b) in
      counted ∙ ap (λ (m : MembershipId). length (select_rows (is_pending m) db.messages)) (sym own)
