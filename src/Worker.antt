-- ===== src/Worker.antt =====
-- src/app/workers: the durable job repository, the failure policy and the bounded runner.
mod Samples
mod Tests
mod RunnerTests
pub mod Types
pub mod Tables
pub mod Repository
pub mod Invariant
pub mod History
pub mod Idempotency
pub mod Claiming
pub mod Settling
pub mod Completing
pub mod Policy
pub mod Runner
