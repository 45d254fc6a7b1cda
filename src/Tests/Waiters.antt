-- ===== src/Tests/Waiters.antt =====
-- Two long polls of crates/psst-relay/src/lib.rs, one of which ends.
use psst.Prelude.{List, [], ◌∷◌}
use psst.Relay.Registry.{Event, subscribes, notifies, drops, happen_all, no_waiters}
use psst.Relay.Registry.Wakes.{Wakes, happen_all-Wakes}

abbrev events : List Event
events = subscribes "mem_a" ∷ subscribes "mem_b" ∷ drops 0 ∷ []

happen_all-Wakes_example : Wakes "mem_a" (notifies "mem_a") (happen_all events no_waiters)
happen_all-Wakes_example = happen_all-Wakes events "mem_a" (notifies "mem_a")
