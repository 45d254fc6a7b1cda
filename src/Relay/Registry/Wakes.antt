-- ===== src/Relay/Registry/Wakes.antt =====
-- When the long polls of crates/psst-relay/src/lib.rs are woken.
use psst.Prelude.{
  ℕ, ◌-◌, ◌≡◌, sym, Bool, true, false, Option, none, some, List, All, All-imp, ltb, eqb,
  if◌then◌else◌, ◌==◌, eq_iff, arith, Option-cases, inl, inr, subst, Bool-cases,
}
use psst.Core.Id.{MembershipId}
use psst.Relay.Registry.{
  NotificationEntry, NotificationRegistry, NotificationSubscription, Waiters, Event, subscribes,
  notifies, drops, sees, subscribe, notify, drop_subscription, has_changed, changed_in, happen,
  happen_all, no_waiters,
}
use psst.Relay.Registry.Invariant.{
  Matches, IsSound, opened, bumped, closed, no_waiters-IsSound, subscribe-entries, notify-entries,
  drop_subscription-entries, drop_at-Removed,
}
use psst.Relay.Registry.Sound.{happen-IsSound, happen_all-IsSound}

changed_in-open :
    (o : Option NotificationEntry) (s : NotificationSubscription)
    → Matches o s
    → (b : Bool) × (changed_in o s ≡ some b)
changed_in-open none s m = elim m [ ]
changed_in-open (some e) s m = (ltb s.seen e.generation, ground arith)

changed_in-bumped :
    (o : Option NotificationEntry) (s : NotificationSubscription)
    → Matches o s
    → changed_in (bumped o) s ≡ some true
changed_in-bumped none s m = elim m [ ]
changed_in-bumped (some e) s m = ground arith

changed_in-opened :
    (b : Bool) (channel : ℕ) (o : Option NotificationEntry) (s : NotificationSubscription)
    → changed_in o s ≡ some true
    → changed_in (if b then some (opened channel o) else o) s ≡ some true
changed_in-opened true channel none s h = absurd (cc)
changed_in-opened true channel (some e) s h = h
changed_in-opened false channel o s h = h

changed_in-kept :
    (b : Bool) (o : Option NotificationEntry) (s : NotificationSubscription)
    → changed_in o s ≡ some true
    → changed_in (if b then bumped o else o) s ≡ some true
changed_in-kept true none s h = absurd (cc)
changed_in-kept true (some e) s h = ground arith
changed_in-kept false o s h = h

changed_in-closed :
    (b : Bool) (o : Option NotificationEntry) (s : NotificationSubscription)
    → changed_in o s ≡ some true
    → Matches (if b then closed o else o) s
    → changed_in (if b then closed o else o) s ≡ some true
changed_in-closed true none s h m = absurd (cc)
changed_in-closed true (some e) s h m = elim (Bool-cases (eqb (e.registrations - 1) 0)) [
  | inl gone ↦ elim (rw gone at m) [ ]
  | inr kept ↦ rw kept h
]
changed_in-closed false o s h m = h

pub has_changed-happen :
    (e : Event) (w : Waiters) (s : NotificationSubscription)
    → has_changed w.registry s ≡ some true
    → Matches ((happen e w).registry.entries s.key) s
    → has_changed (happen e w).registry s ≡ some true
unfolding has_changed happen
has_changed-happen (subscribes k) w s h m = elim (Option-cases (subscribe k w.registry)) [
  | inl full ↦ rw full h
  | inr ((r', t), e) ↦
      rw (e, subscribe-entries k s.key w.registry r' t e)
        (changed_in-opened (k == s.key) w.registry.channels (w.registry.entries s.key) s h)
]
has_changed-happen (notifies k) w s h m =
    rw (notify-entries k s.key w.registry)
      (changed_in-kept (k == s.key) (w.registry.entries s.key) s h)
has_changed-happen (drops i) w s h m = elim (drop_at-Removed i w.live w.registry) [
  | inl same ↦ rw same h
  | inr (t, rest, out, e) ↦
      let left : Matches ((drop_subscription t w.registry).entries s.key) s =
        subst (λ (x : Waiters). Matches (x.registry.entries s.key) s) e m in
      rw (e, drop_subscription-entries t s.key w.registry)
        (changed_in-closed (t.key == s.key) (w.registry.entries s.key) s h
          (rw (drop_subscription-entries t s.key w.registry) at left))
]
has_changed-happen (sees i) w s h m = h

pub notify-has_changed :
    (k : MembershipId) (r : NotificationRegistry) (s : NotificationSubscription)
    → Matches (r.entries s.key) s
    → s.key ≡ k
    → has_changed (notify k r) s ≡ some true
unfolding has_changed
notify-has_changed k r s m e =
    let same : (k == s.key) ≡ true = (eq_iff k s.key).1 (sym e) in
    rw (notify-entries k s.key r, same) (changed_in-bumped (r.entries s.key) s m)

-- What a registry owes its waiters, at a notification and at an event.
pub record Wakes (k : MembershipId) (e : Event) (w : Waiters) : Type 0 where
  pub sound : IsSound w
  pub open_channels : All (λ s. (b : Bool) × (has_changed w.registry s ≡ some b)) w.live
  pub woken : All (λ s. s.key ≡ k → has_changed (notify k w.registry) s ≡ some true) w.live
  pub kept :
      All
        (λ s.
          has_changed w.registry s ≡ some true → has_changed (happen e w).registry s ≡ some true)
        (happen e w).live

-- Whatever subscriptions, notifications, drops and reads have happened on a new registry: its entries
-- count the subscriptions that live, with no entry for a membership that has none; the free permits
-- and the live subscriptions are 128 together; the channel of a live subscription is open. A
-- notification of a membership wakes every live subscription of it, and a subscription that is to be
-- woken stays so, whatever happens, as long as it lives as it is, unread.
pub happen_all-Wakes :
    (events : List Event) (k : MembershipId) (e : Event) → Wakes k e (happen_all events no_waiters)
unfolding has_changed
happen_all-Wakes events k e =
    let w : Waiters = happen_all events no_waiters in
    let s = happen_all-IsSound events no_waiters no_waiters-IsSound in
    let t = happen-IsSound e w s in
    record {
      sound = s;
      open_channels =
          All-imp (λ x. Matches (w.registry.entries x.key) x) _ w.live
            (λ x m. changed_in-open (w.registry.entries x.key) x m) s.matched;
      woken =
          All-imp (λ x. Matches (w.registry.entries x.key) x) _ w.live
            (λ x m. notify-has_changed k w.registry x m) s.matched;
      kept =
          All-imp (λ x. Matches ((happen e w).registry.entries x.key) x) _ (happen e w).live
            (λ x m h. has_changed-happen e w x h m) t.matched;
    }
