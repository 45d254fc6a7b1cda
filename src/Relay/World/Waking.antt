-- ===== src/Relay/World/Waking.antt =====
-- No wakeup of a long poll of crates/psst-relay/src/lib.rs is lost.
use psst.Prelude.{
  ℕ, ◌≡◌, ◌⊎◌, inl, inr, refl, sym, ap, subst, true, false, some, List, [], ◌∷◌, All, ◌==◌, eq_iff,
  Bool-cases,
}
use psst.Core.Error.{ok, err}
use psst.Core.Id.{MembershipId}
use psst.Store.Schema.{Db}
use psst.Store.Exec.{Outcome}
use psst.Store.Exec.Atomic.{transaction-err}
use psst.Store.Mailbox.{SendByName, SendOutcome, authenticated_send_by_name}
use psst.Store.History.Arrivals.{NoNew, still, has_mail}
use psst.Store.History.Arrivals.Named.{send_by_name-elsewhere}
use psst.Relay.Registry.{
  NotificationRegistry, NotificationSubscription, Waiters, notifies, happen, has_changed,
}
use psst.Relay.Registry.Invariant.{Matches, IsSound}
use psst.Relay.Registry.Sound.{happen-IsSound}
use psst.Relay.Registry.Wakes.{notify-has_changed, has_changed-happen}
use psst.Relay.Command.{Credential, StoreCommand}
use psst.Relay.Worker.{Circumstance, handle, session, sent_by}
use psst.Relay.Worker.Arrivals.{handle-Quiet, is_send}
use psst.Relay.World.{World, Change, takes, polls, relay_of, world_of, change, changes}

-- What a command does, for a member: no mail comes and nobody is woken, or a member is woken, and the
-- mail that comes is its own.
data Effect (k : MembershipId) (w w' : World) : Type 0 where
  calm : NoNew k w.db w'.db → w'.waiters ≡ w.waiters → Effect k w w'
  told :
      (j : MembershipId)
      → ((j ≡ k) ⊎ NoNew k w.db w'.db)
      → w'.waiters ≡ happen (notifies j) w.waiters
      → Effect k w w'

module _ (sha256 : List ℕ → List ℕ) (k : MembershipId) where
  failed_send :
      (c : Circumstance) (credential : Credential) (request : SendByName) (db : Db) (e : _)
      → (authenticated_send_by_name sha256 c.io (session credential c.now) request db).0 ≡ err e
      → (authenticated_send_by_name sha256 c.io (session credential c.now) request db).1 ≡ db
  unfolding authenticated_send_by_name
  failed_send c credential request db e h = transaction-err c.io _ db e h

  sent_by-Effect :
      (p : Outcome SendOutcome × Db) (w : World)
      → ((o : SendOutcome)
          → p.0 ≡ ok o
          → (o.message.message.semantics.recipient ≡ k) ⊎ NoNew k w.db p.1)
      → ((e : _) → p.0 ≡ err e → p.1 ≡ w.db)
      → Effect k w (world_of w (sent_by p (relay_of w)).1)
  unfolding happen
  sent_by-Effect (ok o, db) w good bad =
      told o.message.message.semantics.recipient (good o refl) refl
  sent_by-Effect (err e, db) w good bad =
      calm (still k w.db db (ap (λ (d : Db). d.messages) (bad e refl))) refl

  answered_send :
      (c : Circumstance) (credential : Credential) (request : SendByName) (db : Db)
      (o : SendOutcome)
      → (authenticated_send_by_name sha256 c.io (session credential c.now) request db).0 ≡ ok o
      → (o.message.message.semantics.recipient ≡ k)
        ⊎ NoNew k db
            (authenticated_send_by_name sha256 c.io (session credential c.now) request db).1
  answered_send c credential request db o h =
      let p = authenticated_send_by_name sha256 c.io (session credential c.now) request db in
      elim (Bool-cases (o.message.message.semantics.recipient == k)) [
        | inl same ↦ inl ((eq_iff o.message.message.semantics.recipient k).0 same)
        | inr differs ↦ inr (
            send_by_name-elsewhere sha256 k c.io (session credential c.now) request db p.1 o
              (ap (λ (r : Outcome SendOutcome). (r, p.1)) h) differs)
      ]

  calm-Effect :
      (c : Circumstance) (command : StoreCommand) (w : World)
      → is_send command ≡ false
      → Effect k w (change sha256 (takes c command) w)
  unfolding change
  calm-Effect c command w h =
      let q = handle-Quiet sha256 k c command (relay_of w) h in
      calm q.mail (ap (λ (r : NotificationRegistry). record (w.waiters) { registry = r }) q.polls)

  takes-Effect :
      (c : Circumstance) (command : StoreCommand) (w : World)
      → Effect k w (change sha256 (takes c command) w)
  unfolding change handle
  takes-Effect c (StoreCommand.send credential request) w =
      sent_by-Effect
        (authenticated_send_by_name sha256 c.io (session credential c.now) request w.db) w
        (answered_send c credential request w.db) (failed_send c credential request w.db)
  takes-Effect c command w = calm-Effect c command w refl

-- The poll has the state x of its subscription at every one of the changes: it lives, and does not
-- read what it is woken with.
abbrev pub Lives : NotificationSubscription → List NotificationSubscription → Type 0
Lives x [] = ⊥
Lives x (s ∷ live) = (s ≡ x) ⊎ Lives x live

Lives-All :
    (P : NotificationSubscription → Type 0) (x : NotificationSubscription)
    (live : List NotificationSubscription)
    → Lives x live
    → All P live
    → P x
Lives-All P x [] l h = elim l [ ]
Lives-All P x (s ∷ live) (inl same) h = subst P same h.0
Lives-All P x (s ∷ live) (inr later) h = Lives-All P x live later h.1

Matches-live :
    (x : NotificationSubscription) (w : Waiters)
    → IsSound w
    → Lives x w.live
    → Matches (w.registry.entries x.key) x
Matches-live x w s l = Lives-All (λ y. Matches (w.registry.entries y.key) y) x w.live l s.matched

-- Mail of the poll's member wakes it.
abbrev pub Awake : NotificationSubscription → World → Type 0
Awake x w = has_mail x.key w.db ≡ true → has_changed w.waiters.registry x ≡ some true

module _ (sha256 : List ℕ → List ℕ) where
  change-IsSound :
      (y : Change) (w : World) → IsSound w.waiters → IsSound (change sha256 y w).waiters
  unfolding change
  change-IsSound (polls e) w s = happen-IsSound e w.waiters s
  change-IsSound (takes c command) w s = elim (takes-Effect sha256 "" c command w) [
    | calm mail same ↦ subst IsSound (sym same) s
    | told j to same ↦ subst IsSound (sym same) (happen-IsSound (notifies j) w.waiters s)
  ]

  Effect-Awake :
      (x : NotificationSubscription) (w w' : World)
      → Effect x.key w w'
      → IsSound w.waiters
      → Lives x w.waiters.live
      → Matches (w'.waiters.registry.entries x.key) x
      → Awake x w
      → Awake x w'
  unfolding happen
  Effect-Awake x w w' (calm mail same) s l m a =
      λ h. subst (λ (v : Waiters). has_changed v.registry x ≡ some true) (sym same) (a (mail.had h))
  Effect-Awake x w w' (told j (inl own) same) s l m a = λ h.
      subst (λ (v : Waiters). has_changed v.registry x ≡ some true) (sym same)
        (notify-has_changed j w.waiters.registry x (Matches-live x w.waiters s l) (sym own))
  Effect-Awake x w w' (told j (inr mail) same) s l m a = λ h.
      subst (λ (v : Waiters). has_changed v.registry x ≡ some true) (sym same)
        (has_changed-happen (notifies j) w.waiters x (a (mail.had h))
          (subst (λ (v : Waiters). Matches (v.registry.entries x.key) x) same m))

  change-Awake :
      (x : NotificationSubscription) (y : Change) (w : World)
      → IsSound w.waiters
      → Lives x w.waiters.live
      → Lives x (change sha256 y w).waiters.live
      → Awake x w
      → Awake x (change sha256 y w)
  unfolding change
  change-Awake x (polls e) w s l m a = λ h.
      has_changed-happen e w.waiters x (a h)
        (Matches-live x (happen e w.waiters) (happen-IsSound e w.waiters s) m)
  change-Awake x (takes c command) w s l m a =
      Effect-Awake x w (change sha256 (takes c command) w) (takes-Effect sha256 x.key c command w) s
        l
        (Matches-live x (change sha256 (takes c command) w).waiters
          (change-IsSound (takes c command) w s) m)
        a

  -- The poll waits through the changes.
  abbrev pub Waits : NotificationSubscription → List Change → World → Type 0
  Waits x [] w = Lives x w.waiters.live
  Waits x (y ∷ rest) w = Lives x w.waiters.live × Waits x rest (change sha256 y w)

  Waits-first :
      (x : NotificationSubscription) (ys : List Change) (w : World)
      → Waits x ys w
      → Lives x w.waiters.live
  Waits-first x [] w h = h
  Waits-first x (y ∷ rest) w h = h.0

  pub changes-Awake :
      (x : NotificationSubscription) (ys : List Change) (w : World)
      → IsSound w.waiters
      → Waits x ys w
      → Awake x w
      → Awake x (changes sha256 ys w)
  unfolding changes
  changes-Awake x [] w s l a = a
  changes-Awake x (y ∷ rest) w s l a =
      let next = change sha256 y w in
      changes-Awake x rest next (change-IsSound y w s) l.1
        (change-Awake x y w s l.0 (Waits-first x rest next l.1) a)

  pub changes-IsSound :
      (ys : List Change) (w : World) → IsSound w.waiters → IsSound (changes sha256 ys w).waiters
  unfolding changes
  changes-IsSound [] w s = s
  changes-IsSound (y ∷ rest) w s = changes-IsSound rest (change sha256 y w) (change-IsSound y w s)
