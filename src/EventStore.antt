-- ===== src/EventStore.antt =====
-- services/libs/event_store: the tables of the event store, and the operations of `PgEventStore`
-- over them. An operation is the SQL statement that it runs, with the constraints of
-- infra/db/event-store-migrations, so a violated constraint raises.
pub mod Invariant
pub mod Idempotence
pub mod Positions
pub mod Cursor
mod Tables
mod Runs
mod Events
mod Checkpoints
unfoldable pub use Tables.*
unfoldable pub use Runs.*
unfoldable pub use Events.*
unfoldable pub use Checkpoints.*
