-- ===== src/Relay/World/Polls.antt =====
-- A long poll of crates/psst-relay/src/lib.rs (`inbox`) that has found an empty inbox is woken by mail.
use psst.Prelude.{
  ℕ, ◌≡◌, refl, sym, ap, ◌∙◌, subst, Bool, true, false, some, List, [], ◌∷◌, exists_row,
  select_rows, length, Bool-cases, inl, inr, arith,
}
use psst.Core.Error.{ok}
use psst.Core.Id.{MembershipId}
use psst.Store.Schema.{Db, MessageRow}
use psst.Store.Exec.{Outcome}
use psst.Store.Inbox.{is_pending}
use psst.Store.Mailbox.{InboxPage, authenticated_pending_page}
use psst.Store.Session.Mail.{authenticated_pending_page-count}
use psst.Store.History.Arrivals.{has_mail}
use psst.Relay.Registry.{NotificationSubscription, has_changed, no_waiters}
use psst.Relay.Registry.Invariant.{no_waiters-IsSound}
use psst.Relay.Command.{Credential, StoreCommand}
use psst.Relay.Worker.{Circumstance, Reply, handle, session}
use psst.Relay.World.{World, Change, takes, relay_of, changes}
use psst.Relay.World.Waking.{Awake, Waits, changes-Awake, changes-IsSound}

exists_row-select :
    (p : MessageRow → Bool) (xs : List MessageRow)
    → length (select_rows p xs) ≡ 0
    → exists_row p xs ≡ false
unfolding exists_row select_rows
exists_row-select p [] h = refl
exists_row-select p (x ∷ xs) h = elim (Bool-cases (p x)) [
  | inl hit ↦ let g : length (x ∷ select_rows p xs) ≡ 0 = rw hit at h in absurd (omega arith)
  | inr miss ↦
      let g : length (select_rows p xs) ≡ 0 = rw miss at h in rw miss (exists_row-select p xs g)
]

page_of : (p q : Outcome InboxPage) → Reply.page p ≡ Reply.page q → p ≡ q
page_of p q h = cc

-- A relay that has just been started on a store.
abbrev pub started_on : Db → World
started_on db = record { db = db; waiters = no_waiters }

module _ (sha256 : List ℕ → List ℕ) where
  empty-Awake :
      (c : Circumstance) (credential : Credential) (limit : ℕ) (w : World) (page : InboxPage)
      (x : NotificationSubscription)
      → (handle sha256 c (StoreCommand.pending credential limit) (relay_of w)).0
        ≡ Reply.page (ok page)
      → page.pending_count ≡ 0
      → page.recipient_membership ≡ x.key
      → Awake x w
  unfolding handle
  empty-Awake c credential limit w page x h none_pending own = λ mail.
      let p = authenticated_pending_page sha256 c.io (session credential c.now) limit w.db in
      let answer : p.0 ≡ ok page = page_of p.0 (ok page) h in
      let counted =
        authenticated_pending_page-count sha256 c.io (session credential c.now) limit w.db p.1 page
          (ap (λ (r : Outcome InboxPage). (r, p.1)) answer) in
      let nothing : has_mail x.key w.db ≡ false =
        subst (λ (m : MembershipId). has_mail m w.db ≡ false) own
          (exists_row-select (is_pending page.recipient_membership) w.db.messages
            (sym counted ∙ none_pending)) in
      absurd (cc)

  -- No wakeup is lost. Whatever a relay has done since it was started, take a long poll that asks the
  -- worker and is answered with an empty page of its member, and whatever the worker and the other
  -- polls do from there while this one waits, its subscription unread: if mail of the member is
  -- pending then, the poll is woken.
  pub poll_wakes :
      (db : Db) (earlier later : List Change) (c : Circumstance) (credential : Credential)
      (limit : ℕ) (page : InboxPage) (x : NotificationSubscription)
      → (handle sha256 c
          (StoreCommand.pending credential limit)
          (relay_of (changes sha256 earlier (started_on db)))).0
        ≡ Reply.page (ok page)
      → page.pending_count ≡ 0
      → page.recipient_membership ≡ x.key
      → Waits sha256 x
          (takes c (StoreCommand.pending credential limit) ∷ later)
          (changes sha256 earlier (started_on db))
      → has_mail x.key
          (changes sha256
            (takes c (StoreCommand.pending credential limit) ∷ later)
            (changes sha256 earlier (started_on db))).db
        ≡ true
      → has_changed
          (changes sha256
            (takes c (StoreCommand.pending credential limit) ∷ later)
            (changes sha256 earlier (started_on db))).waiters.registry
          x
        ≡ some true
  poll_wakes db earlier later c credential limit page x h none_pending own waits mail =
      let w = changes sha256 earlier (started_on db) in
      changes-Awake sha256 x (takes c (StoreCommand.pending credential limit) ∷ later) w
        (changes-IsSound sha256 earlier (started_on db) no_waiters-IsSound) waits
        (empty-Awake c credential limit w page x h none_pending own) mail
