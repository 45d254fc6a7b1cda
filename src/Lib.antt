-- ===== src/Lib.antt =====
-- Verification of psst, a local message relay for squads of coding agents (Rust, crates/psst-*).
--
-- The program. Agents join a squad as members, hold a leased instance that proves they are online, and
-- send each other messages that stay in the recipient's inbox until they are acknowledged. The relay
-- (crates/psst-relay) serves this over HTTP; everything durable is in crates/psst-store, which keeps
-- it in a SQLite database and answers each request in one transaction; the values, lifecycle states
-- and leases that all crates share are in crates/psst-core. A client (crates/psst-client) calls the relay
-- with bounded retries, under the credentials of crates/psst-protocol; an adapter that runs a coding
-- agent wakes it by the activation machine of crates/psst-application, which also keeps a journal of a
-- leave that is under way. The library covers crates/psst-core and crates/psst-store, and of the other
-- crates the parts that are listed here.
--
-- Files and code.
--   Prelude and its modules: Boolean tests on numbers, lists over the native numbers, tables (find,
--     exists, select, update, order), texts as code points and UTF-8 bytes, tables that only grow.
--   Core/Error, Value, Id, Time, State, Message: crates/psst-core/src/error.rs, value.rs, id.rs,
--     time.rs, state.rs, message.rs, a function per constructor or method. A method on `&mut self`
--     returns the new state. Core/Codes, Core/Id/Kinds and Core/State/Leases prove their properties.
--   Store/Schema, Clash, Insert: crates/psst-store/migrations, the tables as lists of rows, their UNIQUE
--     constraints as tests on pairs of rows, and the INSERT statements with the constraints they meet.
--   Store/Error, Exec: RepositoryError of repository.rs, and the monad of statements. `transaction` is
--     BEGIN IMMEDIATE, the body and COMMIT, and takes everything back on an error; what SQLite answers
--     to BEGIN and COMMIT is its argument `Io`.
--   Store/Repository, Roster: repository.rs (create_squad, archive_squad, join, leave, roster, …).
--   Store/Message: message.rs (send_message, send_in_transaction, resolve_retry, find_by_dedupe).
--   Store/Inbox: inbox.rs (pending_inbox_on, acknowledge_on).
--   Store/Instance: instance.rs (claim_instance, heartbeat_instance, resume_instance, LeasePolicy).
--   Store/Session, Mailbox, Transcript, Lifecycle, Resume: authenticated.rs, every operation under a
--     session credential.
--   Store/Migrations: lib.rs (validate_migration_plan, verify_migration_ledger, migrate). The effect of a
--     script on the schema and the SHA-256 digest in hexadecimal are its arguments.
--   Store/Invariant and its modules: what the tables keep. Store/History: any sequence of the operations
--     that write, with any answers of SQLite and the faults that the program's tests inject; its child
--     modules prove what holds across such sequences. Store/Exec/Steps, Atomic and Inversion carry the
--     rules for actions that those proofs search.
--   Core/Secret: crates/psst-core/src/secret.rs (from_encoded, generate).
--   Protocol/Dto, Error, Auth: crates/psst-protocol/src/dto.rs, error.rs and auth.rs, the priorities, the
--     error codes with their HTTP statuses, and the session credential in its headers.
--   Relay/Registry: crates/psst-relay/src/lib.rs, NotificationRegistry, with the subscriptions of the long
--     polls as a list and what happens to them as events. Relay/Command: StoreCommand. Relay/Worker: the
--     loop of the thread that owns the store (`handle` is its match on a command, `work` the loop with its
--     shutdown); Relay/Worker/Histories joins it to Store/History, Relay/Worker/Woken to the registry.
--     Relay/World: the worker and the polls together, as sequences of commands and events in any order.
--     Relay/Inbox: the handler `inbox` with its long poll (`wait_for_mail`).
--   Client/Retry: crates/psst-client/src/lib.rs (the bounds of new_with_sleeper, decode, execute_inner).
--   Application/Activation: crates/psst-application/src/activation.rs, the machine, a function per method.
--     Application/Activation/Drive: the loops drive_wake and run_activation, as the calls that they make;
--     Application/Activation/Turns and Wakes prove what they do.
--   Application/Profile: profile.rs (ProfileBinding) and config.rs (validate_profile_name).
--     Application/Journal: leave_journal.rs, the journal's states and validation, and Application/Journal/Disk
--     storing, loading and removing it on Unix.
--   Tests: a small squad on which the code runs and the theorems are applied.
--
-- Modelling choices.
--   A column is held at the type that the program binds to it, since only the program writes the
--     database; so the errors of decoding a row that another program edited are left out, except the
--     check of a stored body against its digest. CHECK constraints that the validated types imply are
--     not repeated.
--   `sha256` is a parameter, used only as a function. The random resume token is an argument, absent if
--     the operating system's generator fails. Comparing digests in constant time is comparing them.
--   Timestamps are the natural numbers that `UnixMillis::new` accepts; a `Duration` is in nanoseconds.
--   SQLite checks the index that an ON CONFLICT clause names before the other constraints. A foreign key
--     that fails and a UNIQUE constraint that fails are one error. AUTOINCREMENT is a counter without an
--     end. A read outside of a transaction does not meet a busy database.
--   The set of distinct ids of an acknowledgement is walked in the order of the request; a hash set's
--     order writes the same table.
--   A `watch` channel is the number of values sent on it; the map of the registry is a function; the lock
--     around it makes each of its methods one step.
--   What a host, an inbox, a cancellation token, a network or a random generator answers is an argument of
--     the loop that asks; an await that is cancelled is one of its answers. The base64 codec, JSON and the
--     texts that a header may hold are arguments. The worker's commands that only tests send are left out.
--   A `Duration` has no maximum, and doubling one does not saturate: it is cut to the configured maximum at
--     once. A counter of notifications does not wrap.
--   Loops over a queue or a table are structural on lists. The loop of execute_inner recurs on the attempts
--     that are left, which are as many as the code makes; drive_wake recurs on the rounds that the host
--     answers, and takes at most as many as the policy has attempts.
--
-- Not modelled. Opening the database; the validation of requests and responses and the timestamps of the
--   wire protocol, and its OpenAPI document; the relay's dispatch to the worker, its other handlers and its
--   HTTP service; the client's operation deadline, its requests and its credential store; the session
--   runtime and the configuration of crates/psst-application, and the Windows variant of its leave
--   journal; the MCP and Codex adapters, the command line and platform security.
pub mod Prelude
pub mod Core
pub mod Protocol
pub mod Client
pub mod Application
pub mod Store
pub mod Relay
pub mod Tests
