-- ===== src/Relay/Registry.antt =====
-- crates/psst-relay/src/lib.rs: the registry of long polls that wait for mail. A `watch` channel of
-- `tokio` is the number of values sent on it, told apart from other channels by its own number; a
-- receiver has seen some of them. The semaphore is the number of permits that are free.
pub mod Invariant
pub mod Sound
pub mod Wakes
use psst.Prelude.{
  ℕ, zero, suc, ◌+◌, ◌-◌, Bool, true, false, Option, none, some, List, [], ◌∷◌, ltb, eqb,
  if◌then◌else◌, ◌==◌,
}
use psst.Core.Id.{MembershipId}

abbrev pub max_inbox_waiters : ℕ
max_inbox_waiters = 128

pub record NotificationEntry : Type 0 where
  pub channel : ℕ
  pub generation : ℕ
  pub registrations : ℕ

pub record NotificationRegistry : Type 0 where
  pub entries : MembershipId → Option NotificationEntry
  pub permits : ℕ
  -- The number of the next channel.
  pub channels : ℕ

pub record NotificationSubscription : Type 0 where
  pub key : MembershipId
  pub channel : ℕ
  pub seen : ℕ

-- `NotificationRegistry::bounded`.
unfoldable pub bounded : NotificationRegistry
bounded = record { entries = λ k. none; permits = max_inbox_waiters; channels = 0 }

abbrev pub put :
    MembershipId
    → Option NotificationEntry
    → (MembershipId → Option NotificationEntry)
    → MembershipId
    → Option NotificationEntry
put key entry entries k = if key == k then entry else entries k

abbrev registered :
    MembershipId
    → NotificationEntry
    → NotificationRegistry
    → NotificationRegistry × NotificationSubscription
registered key e r = (
  record r {
    entries = put key (some (record e { registrations = e.registrations + 1 })) r.entries;
    permits = r.permits - 1;
  },
  record { key = key; channel = e.channel; seen = e.generation },
)

-- `entry(key).or_insert_with(…)`.
abbrev or_insert :
    MembershipId
    → Option NotificationEntry
    → NotificationRegistry
    → NotificationRegistry × NotificationSubscription
or_insert key (some e) r = registered key e r
or_insert key none r =
    registered key (record { channel = r.channels; generation = 0; registrations = 0 })
      (record r { channels = r.channels + 1 })

unfoldable pub subscribe :
    MembershipId → NotificationRegistry → Option (NotificationRegistry × NotificationSubscription)
subscribe membership r =
    if eqb r.permits 0 then none else some (or_insert membership (r.entries membership) r)

abbrev advanced :
    MembershipId → Option NotificationEntry → NotificationRegistry → NotificationRegistry
advanced key none r = r
advanced key (some e) r = record r {
  entries = put key (some (record e { generation = e.generation + 1 })) r.entries;
}

unfoldable pub notify : MembershipId → NotificationRegistry → NotificationRegistry
notify membership r = advanced membership (r.entries membership) r

abbrev released :
    MembershipId → Option NotificationEntry → NotificationRegistry → NotificationRegistry
released key none r = r
released key (some e) r =
    let left = e.registrations - 1 in
    record r {
      entries =
          put key (if eqb left 0 then none else some (record e { registrations = left })) r.entries;
    }

-- `NotificationSubscription::drop`, and the release of its permit.
unfoldable pub drop_subscription :
    NotificationSubscription → NotificationRegistry → NotificationRegistry
drop_subscription s r =
    let after = released s.key (r.entries s.key) r in record after { permits = after.permits + 1 }

-- `receiver.changed()` resolves, `none` if the sender of the channel was dropped.
abbrev pub changed_in : Option NotificationEntry → NotificationSubscription → Option Bool
changed_in none s = none
changed_in (some e) s = if eqb e.channel s.channel then some (ltb s.seen e.generation) else none

unfoldable pub has_changed : NotificationRegistry → NotificationSubscription → Option Bool
has_changed r s = changed_in (r.entries s.key) s

-- The registry with the subscriptions that the handlers hold.
pub record Waiters : Type 0 where
  pub registry : NotificationRegistry
  pub live : List NotificationSubscription

abbrev pub drop_at : ℕ → List NotificationSubscription → NotificationRegistry → Waiters
drop_at i [] r = record { registry = r; live = [] }
drop_at zero (s ∷ live) r = record { registry = drop_subscription s r; live = live }
drop_at (suc i) (s ∷ live) r = let w = drop_at i live r in record w { live = s ∷ w.live }

-- A receiver that `changed` has answered has seen the latest value.
abbrev pub caught_up :
    Option NotificationEntry → NotificationSubscription → NotificationSubscription
caught_up none s = s
caught_up (some e) s = record s { seen = e.generation }

abbrev pub see_at :
    ℕ → NotificationRegistry → List NotificationSubscription → List NotificationSubscription
see_at i r [] = []
see_at zero r (s ∷ live) = caught_up (r.entries s.key) s ∷ live
see_at (suc i) r (s ∷ live) = s ∷ see_at i r live

pub data Event : Type 0 where
  subscribes : MembershipId → Event
  notifies : MembershipId → Event
  drops : ℕ → Event
  sees : ℕ → Event

abbrev joined : Option (NotificationRegistry × NotificationSubscription) → Waiters → Waiters
joined none w = w
joined (some (r, s)) w = record { registry = r; live = s ∷ w.live }

unfoldable pub happen : Event → Waiters → Waiters
unfolding subscribe notify drop_subscription
happen (subscribes k) w = joined (subscribe k w.registry) w
happen (notifies k) w = record w { registry = notify k w.registry }
happen (drops i) w = drop_at i w.live w.registry
happen (sees i) w = record w { live = see_at i w.registry w.live }

unfoldable pub happen_all : List Event → Waiters → Waiters
unfolding happen
happen_all [] w = w
happen_all (e ∷ events) w = happen_all events (happen e w)

abbrev pub no_waiters : Waiters
no_waiters = record { registry = bounded; live = [] }
