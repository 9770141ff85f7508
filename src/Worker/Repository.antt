-- ===== src/Worker/Repository.antt =====
-- The methods of `PostgresWorkerJobRepository` in durable-worker-job-repository.ts. Each SQL
-- statement is one step on the tables: its `WITH` parts read the tables as they were, an `UPDATE`
-- in a part is made whatever the other parts find, and a violated constraint undoes it whole.
pub mod Columns
pub mod Enqueue
pub mod Claim
pub mod Progress
pub mod Failure
