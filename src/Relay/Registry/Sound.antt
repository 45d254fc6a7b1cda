-- ===== src/Relay/Registry/Sound.antt =====
-- The registry of crates/psst-relay/src/lib.rs across any events.
use psst.Prelude.{
  ℕ, zero, suc, ◌+◌, ◌<◌, ◌≡◌, refl, sym, Option, none, some, List, [], ◌∷◌, length, All, All-imp,
  All-zip, ◌==◌, eq_refl, arith, Option-cases, inl, inr, subst, ap, ◌∙◌,
}
use psst.Core.Id.{MembershipId}
use psst.Relay.Registry.{
  NotificationEntry, NotificationRegistry, NotificationSubscription, Waiters, Event, subscribes,
  notifies, drops, sees, subscribe, notify, drop_subscription, see_at, caught_up, happen,
  happen_all,
}
use psst.Relay.Registry.Invariant.{
  count_key, Counts, Matches, IsSound, opened, subscribe-entries, notify-entries,
  drop_subscription-entries, if-Matches, opened-Matches, bumped-Matches, closed-Matches,
  opened-Counts, bumped-Counts, closed-Counts, members-counted, Removed, drop_at-Removed,
  Removed-count, Removed-length, Removed-All,
}

abbrev At : NotificationRegistry → NotificationSubscription → Type 0
At r s = Matches (r.entries s.key) s

subscribe-fields :
    (key : MembershipId) (r r' : NotificationRegistry) (t : NotificationSubscription)
    → subscribe key r ≡ some (r', t)
    → (t.key ≡ key)
      × Matches (some (opened r.channels (r.entries key))) t
      × (r'.permits + 1 ≡ r.permits)
unfolding subscribe
subscribe-fields key r r' t h = elim (Option-cases (r.entries key)) [
  | inl e ↦ rw e (ground arith)
  | inr (x, e) ↦ rw e (ground arith)
]

subscribes-IsSound :
    (key : MembershipId) (w : Waiters) (r' : NotificationRegistry) (t : NotificationSubscription)
    → IsSound w
    → subscribe key w.registry ≡ some (r', t)
    → IsSound (record { registry = r'; live = t ∷ w.live })
subscribes-IsSound key w r' t s h =
    let r : NotificationRegistry = w.registry in
    let (named, new, counted) = subscribe-fields key r r' t h in
    record {
      counted = λ k.
          rw (subscribe-entries key k r r' t h, named)
            (opened-Counts (key == k) r.channels (r.entries k) (count_key k w.live) (s.counted k));
      matched = (
        rw (named, subscribe-entries key key r r' t h, eq_refl key) new,
        All-imp (At r) (At r') w.live
            (λ x m. rw (subscribe-entries key x.key r r' t h) (
              if-Matches (key == x.key) (r.entries x.key) _ x m
                (opened-Matches r.channels (r.entries x.key) x m)))
            s.matched,
      );
      permits = omega (arith, s.permits);
    }

notify-permits :
    (key : MembershipId) (r : NotificationRegistry) → (notify key r).permits ≡ r.permits
unfolding notify
notify-permits key r = elim (Option-cases (r.entries key)) [
  | inl e ↦ rw e refl
  | inr (x, e) ↦ rw e refl
]

drop_subscription-permits :
    (t : NotificationSubscription) (r : NotificationRegistry)
    → (drop_subscription t r).permits ≡ r.permits + 1
unfolding drop_subscription
drop_subscription-permits t r = elim (Option-cases (r.entries t.key)) [
  | inl e ↦ rw e refl
  | inr (x, e) ↦ rw e refl
]

notifies-IsSound :
    (key : MembershipId) (w : Waiters)
    → IsSound w
    → IsSound (record w { registry = notify key w.registry })
notifies-IsSound key w s =
    let r : NotificationRegistry = w.registry in
    record {
      counted = λ k.
          rw (notify-entries key k r)
            (bumped-Counts (key == k) (r.entries k) (count_key k w.live) (s.counted k));
      matched =
          All-imp (At r) (At (notify key r)) w.live
            (λ x m. rw (notify-entries key x.key r) (
              if-Matches (key == x.key) (r.entries x.key) _ x m
                (bumped-Matches (r.entries x.key) x m)))
            s.matched;
      permits = ap (λ (n : ℕ). n + length w.live) (notify-permits key r) ∙ s.permits;
    }

drops-IsSound :
    (t : NotificationSubscription) (r : NotificationRegistry)
    (live rest : List NotificationSubscription)
    → Removed t live rest
    → IsSound (record { registry = r; live = live })
    → IsSound (record { registry = drop_subscription t r; live = rest })
drops-IsSound t r live rest out s =
    let counted : (k : MembershipId)
        → Counts ((drop_subscription t r).entries k) (count_key k rest) =
      λ k. rw (drop_subscription-entries t k r) (
        closed-Counts (t.key == k) (r.entries k) (count_key k rest)
          (subst (λ (n : ℕ). Counts (r.entries k) n) (Removed-count out k) (s.counted k))) in
    record {
      counted = counted;
      matched =
          All-imp (λ x. At r x × (0 < count_key x.key rest)) (At (drop_subscription t r)) rest
            (λ x (m, some_left). rw (drop_subscription-entries t x.key r) (
              closed-Matches (t.key == x.key) (r.entries x.key) x (count_key x.key rest) m
                (rw (drop_subscription-entries t x.key r) at (counted x.key)) some_left))
            (All-zip (At r) (λ x. 0 < count_key x.key rest) rest
              (Removed-All (At r) out s.matched).1 (members-counted rest));
      permits = omega (arith, s.permits, Removed-length out, drop_subscription-permits t r);
    }

see_at-same :
    (i : ℕ) (r : NotificationRegistry) (live : List NotificationSubscription) (k : MembershipId)
    → (count_key k (see_at i r live) ≡ count_key k live) × (length (see_at i r live) ≡ length live)
see_at-same i r [] k = (refl, refl)
see_at-same zero r (s ∷ live) k = elim (Option-cases (r.entries s.key)) [
  | inl e ↦ rw e (refl, refl)
  | inr (x, e) ↦ rw e (refl, refl)
]
see_at-same (suc i) r (s ∷ live) k =
    let (same, long) = see_at-same i r live k in (omega (arith, same), omega (arith, long))

caught_up-Matches :
    (o : Option NotificationEntry) (s : NotificationSubscription)
    → Matches o s
    → Matches o (caught_up o s) × ((caught_up o s).key ≡ s.key)
caught_up-Matches none s m = (m, refl)
caught_up-Matches (some e) s m = ((m.0, omega arith), refl)

see_at-matched :
    (i : ℕ) (r : NotificationRegistry) (live : List NotificationSubscription)
    → All (At r) live
    → All (At r) (see_at i r live)
see_at-matched i r [] h = tt
see_at-matched zero r (s ∷ live) h =
    let (m, same) = caught_up-Matches (r.entries s.key) s h.0 in
    (
      subst (λ (k : MembershipId). Matches (r.entries k) (caught_up (r.entries s.key) s)) (sym same)
          m,
      h.1,
    )
see_at-matched (suc i) r (s ∷ live) h = (h.0, see_at-matched i r live h.1)

pub happen-IsSound : (e : Event) (w : Waiters) → IsSound w → IsSound (happen e w)
unfolding happen
happen-IsSound (subscribes k) w s = elim (Option-cases (subscribe k w.registry)) [
  | inl full ↦ rw full s
  | inr ((r', t), e) ↦ rw e (subscribes-IsSound k w r' t s e)
]
happen-IsSound (notifies k) w s = notifies-IsSound k w s
happen-IsSound (drops i) w s = elim (drop_at-Removed i w.live w.registry) [
  | inl same ↦ rw same s
  | inr (t, rest, out, e) ↦ rw e (drops-IsSound t w.registry w.live rest out s)
]
happen-IsSound (sees i) w s = record {
  counted = λ k.
      subst (λ (n : ℕ). Counts (w.registry.entries k) n) (sym (see_at-same i w.registry w.live k).0)
        (s.counted k);
  matched = see_at-matched i w.registry w.live s.matched;
  permits = omega (arith, s.permits, (see_at-same i w.registry w.live "").1);
}

pub happen_all-IsSound :
    (events : List Event) (w : Waiters) → IsSound w → IsSound (happen_all events w)
unfolding happen_all
happen_all-IsSound [] w s = s
happen_all-IsSound (e ∷ events) w s = happen_all-IsSound events (happen e w) (happen-IsSound e w s)
