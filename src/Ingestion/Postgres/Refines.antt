-- ===== src/Ingestion/Postgres/Refines.antt =====
-- The tables of postgres-raw-event-repository.ts against the store of raw-event-store.ts.
mod Columns
mod Lookups
mod Writes
mod Steps
mod Histories
pub use Columns.*
pub use Writes.*
pub use Lookups.*
pub use Steps.*
pub use Histories.*
