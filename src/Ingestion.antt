-- ===== src/Ingestion.antt =====
-- src/ingestion: the raw-event store, the analytics sink and the request handlers.
mod Tests
mod PostgresTests
pub mod Store
pub mod Sink
pub mod Handlers
pub mod Postgres
