-- ===== src/Relay/World.antt =====
-- crates/psst-relay/src/lib.rs: the worker and the long polls together. Each change is a command that the
-- worker takes, from any client, or an event of the polls' registry; any sequence of them is an
-- interleaving of the worker's thread with the handlers.
pub mod Waking
pub mod Polls
use psst.Prelude.{ℕ, List, [], ◌∷◌}
use psst.Store.Schema.{Db}
use psst.Relay.Registry.{Waiters, Event, happen}
use psst.Relay.Command.{StoreCommand}
use psst.Relay.Worker.{Circumstance, Relay, handle}

pub record World : Type 0 where
  pub db : Db
  pub waiters : Waiters

pub data Change : Type 0 where
  takes : Circumstance → StoreCommand → Change
  polls : Event → Change

abbrev pub relay_of : World → Relay
relay_of w = record { db = w.db; notifications = w.waiters.registry }

abbrev pub world_of : World → Relay → World
world_of w s = record { db = s.db; waiters = record (w.waiters) { registry = s.notifications } }

module _ (sha256 : List ℕ → List ℕ) where
  unfoldable pub change : Change → World → World
  unfolding handle happen
  change (takes c command) w = world_of w (handle sha256 c command (relay_of w)).1
  change (polls e) w = record w { waiters = happen e w.waiters }

  unfoldable pub changes : List Change → World → World
  unfolding change
  changes [] w = w
  changes (x ∷ rest) w = changes rest (change x w)
