-- ===== src/Relay/Worker/Woken.antt =====
-- The long polls that a send of crates/psst-relay/src/lib.rs wakes.
use psst.Prelude.{ℕ, ◌≡◌, true, some, List, All, All-imp}
use psst.Core.Error.{ok, err}
use psst.Store.Schema.{Db}
use psst.Store.Exec.{Outcome}
use psst.Store.Mailbox.{SendByName, SendOutcome, authenticated_send_by_name}
use psst.Relay.Registry.{Event, has_changed, happen_all, no_waiters, notify}
use psst.Relay.Registry.Invariant.{Matches, no_waiters-IsSound}
use psst.Relay.Registry.Sound.{happen_all-IsSound}
use psst.Relay.Registry.Wakes.{notify-has_changed}
use psst.Relay.Command.{Credential, StoreCommand}
use psst.Relay.Worker.{Circumstance, Relay, Reply, handle, sent_by, session}

sent_by_ok :
    (p : Outcome SendOutcome × Db) (s s' : Relay) (o : SendOutcome)
    → sent_by p s ≡ (Reply.sent (ok o), s')
    → (p ≡ (ok o, s'.db))
      × (s'.notifications ≡ notify o.message.message.semantics.recipient s.notifications)
sent_by_ok (ok x, db) s s' o h = (cc, cc)
sent_by_ok (err e, db) s s' o h = absurd (cc)

module _ (sha256 : List ℕ → List ℕ) where
  -- Whatever the handlers' long polls have done on a new registry before it, the worker that answers
  -- a send with a message has advanced the recipient's generation: every live long poll of the member
  -- that the message names as its recipient is woken, and the send of the store that stands behind
  -- the answer left the database as the worker leaves it.
  pub send_wakes :
      (events : List Event) (c : Circumstance) (credential : Credential) (request : SendByName)
      (db : Db) (s' : Relay) (o : SendOutcome)
      → handle sha256 c
          (StoreCommand.send credential request)
          (record { db = db; notifications = (happen_all events no_waiters).registry })
        ≡ (Reply.sent (ok o), s')
      → All
          (λ x.
            x.key ≡ o.message.message.semantics.recipient
            → has_changed s'.notifications x ≡ some true)
          (happen_all events no_waiters).live
        × (authenticated_send_by_name sha256 c.io (session credential c.now) request db
            ≡ (ok o, s'.db))
  unfolding handle
  send_wakes events c credential request db s' o h =
      let w = happen_all events no_waiters in
      let k = o.message.message.semantics.recipient in
      let (sent, told) =
        sent_by_ok (authenticated_send_by_name sha256 c.io (session credential c.now) request db)
          (record { db = db; notifications = w.registry }) s' o h in
      (
        All-imp (λ x. Matches (w.registry.entries x.key) x) _ w.live
            (λ x m same. rw told (notify-has_changed k w.registry x m same))
            (happen_all-IsSound events no_waiters no_waiters-IsSound).matched,
        sent,
      )
