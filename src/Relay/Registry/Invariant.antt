-- ===== src/Relay/Registry/Invariant.antt =====
-- What holds of the registry of crates/psst-relay/src/lib.rs between events.
use psst.Prelude.{
  ℕ, zero, suc, ◌+◌, ◌-◌, ◌<◌, ◌≤◌, ◌≡◌, ◌⊎◌, refl, Bool, true, false, Option, none, some, List, [],
  ◌∷◌, length, All, All-imp, eqb, if◌then◌else◌, ◌==◌, eq_iff, eq_refl, arith, Option-cases, inl,
  inr, Bool-cases, ap,
}
use psst.Core.Id.{MembershipId}
use psst.Relay.Registry.{
  NotificationEntry, NotificationRegistry, NotificationSubscription, Waiters, bounded, subscribe,
  notify, drop_subscription, drop_at, no_waiters,
}

abbrev pub count_key : MembershipId → List NotificationSubscription → ℕ
count_key k [] = 0
count_key k (s ∷ live) = count_key k live + (if s.key == k then 1 else 0)

-- The entry of a key counts its subscriptions, and is there only if there are some.
abbrev pub Counts : Option NotificationEntry → ℕ → Type 0
Counts none n = n ≡ 0
Counts (some e) n = (e.registrations ≡ n) × (0 < n)

abbrev pub Matches : Option NotificationEntry → NotificationSubscription → Type 0
Matches none s = ⊥
Matches (some e) s = (e.channel ≡ s.channel) × (s.seen ≤ e.generation)

pub record IsSound (w : Waiters) : Type 0 where
  pub counted : (k : MembershipId) → Counts (w.registry.entries k) (count_key k w.live)
  pub matched : All (λ s. Matches (w.registry.entries s.key) s) w.live
  pub permits : w.registry.permits + length w.live ≡ 128

pub no_waiters-IsSound : IsSound no_waiters
unfolding bounded
no_waiters-IsSound = record { counted = λ k. refl; matched = tt; permits = refl }

-- What the operations do to the entry of their key.
abbrev pub opened : ℕ → Option NotificationEntry → NotificationEntry
opened channel none = record { channel = channel; generation = 0; registrations = 1 }
opened channel (some e) = record e { registrations = e.registrations + 1 }

abbrev pub bumped : Option NotificationEntry → Option NotificationEntry
bumped none = none
bumped (some e) = some (record e { generation = e.generation + 1 })

abbrev pub closed : Option NotificationEntry → Option NotificationEntry
closed none = none
closed (some e) =
    if eqb (e.registrations - 1) 0
    then none
    else some (record e { registrations = e.registrations - 1 })

pub subscribe-entries :
    (key k : MembershipId) (r r' : NotificationRegistry) (t : NotificationSubscription)
    → subscribe key r ≡ some (r', t)
    → r'.entries k ≡ (if key == k then some (opened r.channels (r.entries k)) else r.entries k)
unfolding subscribe
subscribe-entries key k r r' t h = elim (Option-cases (r.entries key)) [
  | inl e ↦ ground (arith, eq_iff key k)
  | inr (x, e) ↦ ground (arith, eq_iff key k)
]

pub notify-entries :
    (key k : MembershipId) (r : NotificationRegistry)
    → (notify key r).entries k ≡ (if key == k then bumped (r.entries k) else r.entries k)
unfolding notify
notify-entries key k r = elim (Option-cases (r.entries key)) [
  | inl e ↦ rw e (ground (arith, eq_iff key k))
  | inr (x, e) ↦ rw e (ground (arith, eq_iff key k))
]

pub drop_subscription-entries :
    (t : NotificationSubscription) (k : MembershipId) (r : NotificationRegistry)
    → (drop_subscription t r).entries k ≡ (if t.key == k then closed (r.entries k) else r.entries k)
unfolding drop_subscription
drop_subscription-entries t k r = elim (Option-cases (r.entries t.key)) [
  | inl e ↦ rw e (ground (arith, eq_iff t.key k))
  | inr (x, e) ↦ rw e (ground (arith, eq_iff t.key k))
]

pub if-Matches :
    (b : Bool) (o p : Option NotificationEntry) (s : NotificationSubscription)
    → Matches o s
    → Matches p s
    → Matches (if b then p else o) s
if-Matches true o p s mo mp = mp
if-Matches false o p s mo mp = mo

pub opened-Matches :
    (channel : ℕ) (o : Option NotificationEntry) (s : NotificationSubscription)
    → Matches o s
    → Matches (some (opened channel o)) s
opened-Matches channel none s m = elim m [ ]
opened-Matches channel (some e) s m = m

pub bumped-Matches :
    (o : Option NotificationEntry) (s : NotificationSubscription)
    → Matches o s
    → Matches (bumped o) s
bumped-Matches none s m = m
bumped-Matches (some e) s m = ground arith

pub closed-Matches :
    (b : Bool) (o : Option NotificationEntry) (s : NotificationSubscription) (n : ℕ)
    → Matches o s
    → Counts (if b then closed o else o) n
    → 0 < n
    → Matches (if b then closed o else o) s
closed-Matches false o s n m c h = m
closed-Matches true none s n m c h = m
closed-Matches true (some e) s n m c h = elim (Bool-cases (eqb (e.registrations - 1) 0)) [
  | inl gone ↦ absurd (ground arith)
  | inr kept ↦ rw kept m
]

pub opened-Counts :
    (b : Bool) (channel : ℕ) (o : Option NotificationEntry) (n : ℕ)
    → Counts o n
    → Counts (if b then some (opened channel o) else o) (n + (if b then 1 else 0))
opened-Counts true channel none n c = ground arith
opened-Counts true channel (some e) n c = ground arith
opened-Counts false channel none n c = ground arith
opened-Counts false channel (some e) n c = ground arith

pub bumped-Counts :
    (b : Bool) (o : Option NotificationEntry) (n : ℕ)
    → Counts o n
    → Counts (if b then bumped o else o) n
bumped-Counts true none n c = c
bumped-Counts true (some e) n c = c
bumped-Counts false o n c = c

pub closed-Counts :
    (b : Bool) (o : Option NotificationEntry) (n : ℕ)
    → Counts o (n + (if b then 1 else 0))
    → Counts (if b then closed o else o) n
closed-Counts true none n c = absurd (omega arith)
closed-Counts true (some e) n c = elim (Bool-cases (eqb (e.registrations - 1) 0)) [
  | inl gone ↦ rw gone (ground arith)
  | inr kept ↦ rw kept (ground arith)
]
closed-Counts false none n c = ground arith
closed-Counts false (some e) n c = ground arith

-- Every subscription is counted.
pub members-counted :
    (live : List NotificationSubscription) → All (λ x. 0 < count_key x.key live) live
members-counted [] = tt
members-counted (s ∷ live) = (
  rw (eq_refl s.key) (omega arith),
  All-imp (λ x. 0 < count_key x.key live) (λ x. 0 < count_key x.key (s ∷ live)) live
      (λ x h. omega arith) (members-counted live),
)

-- One subscription taken out of a list.
pub data Removed (s : NotificationSubscription)
    : List NotificationSubscription → List NotificationSubscription → Type 0 where
  first : {live : List NotificationSubscription} → Removed s (s ∷ live) live
  later :
      {x : NotificationSubscription} {live rest : List NotificationSubscription}
      → Removed s live rest
      → Removed s (x ∷ live) (x ∷ rest)

pub drop_at-Removed :
    (i : ℕ) (live : List NotificationSubscription) (r : NotificationRegistry)
    → (drop_at i live r ≡ record { registry = r; live = live })
      ⊎ ((s : NotificationSubscription) × (rest : List NotificationSubscription) × Removed s live
            rest
          × (drop_at i live r ≡ record { registry = drop_subscription s r; live = rest }))
drop_at-Removed i [] r = inl refl
drop_at-Removed zero (s ∷ live) r = inr (s, live, first, refl)
drop_at-Removed (suc i) (x ∷ live) r = elim (drop_at-Removed i live r) [
  | inl e ↦ inl (ap (λ (w : Waiters). record w { live = x ∷ w.live }) e)
  | inr (s, rest, out, e) ↦
      inr (s, x ∷ rest, later out, ap (λ (w : Waiters). record w { live = x ∷ w.live }) e)
]

pub Removed-count :
    {s : NotificationSubscription} {live rest : List NotificationSubscription}
    → Removed s live rest
    → (k : MembershipId) → count_key k live ≡ count_key k rest + (if s.key == k then 1 else 0)
Removed-count first k = refl
Removed-count (later out) k = omega (arith, Removed-count out k)

pub Removed-length :
    {s : NotificationSubscription} {live rest : List NotificationSubscription}
    → Removed s live rest
    → length live ≡ length rest + 1
Removed-length first = omega arith
Removed-length (later out) = omega (arith, Removed-length out)

pub Removed-All :
    (P : NotificationSubscription → Type 0) {s : NotificationSubscription}
    {live rest : List NotificationSubscription}
    → Removed s live rest
    → All P live
    → P s × All P rest
Removed-All P first h = (h.0, h.1)
Removed-All P (later out) h = let (p, rest) = Removed-All P out h.1 in (p, (h.0, rest))
