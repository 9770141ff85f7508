-- ===== src/Lib.antt =====
-- The event platform data-dyna: events of producers are ingested and stored, background workers
-- turn what is stored into projections, snapshots, benchmarks and evidence, and merchants review
-- the actions that an agent suggests.
--
-- Paths are from the repository's root.
--
-- - Base: names of the libraries and shared helpers. Equality is an instance argument (Eq); tables
--   are lists of rows (Base/Table), maps are association lists (Base/Maps), and what an async
--   function returns or throws is an Outcome (Base/Throws).
-- - Contract: src/contracts/event-contract.ts, the event envelope as typed data.
-- - Ingestion/Store: src/ingestion/raw-event-store.ts. InMemoryRawEventStore is the record
--   RawEventStore; persistAccepted and persistInvalid are functions from a store to a store and a
--   result. Ingestion/Sink is toPostHogSinkEvent of posthog-sink.ts, and Ingestion/Handlers is
--   event-handlers.ts: handlePostEvent and handlePostEventsBatch on the store and the sink.
-- - Ingestion/Postgres: src/app/repositories/postgres-raw-event-repository.ts, the second store.
--   Ingestion/Postgres/Repository has PostgresRawEventRepository on the tables, and
--   Ingestion/Postgres/Refines sets it against the in-memory store.
-- - Worker: src/app/workers. Worker/Types and Worker/Tables hold the types and the rows,
--   Worker/Repository the methods of PostgresWorkerJobRepository, one child for enqueue, for
--   claim, for heartbeat, checkpoint, complete and readFreshness, and for retry and deadLetter. A
--   method is a function from the tables to the tables and what it returns or throws; Columns is
--   stringifyJsonb and the jsonb columns. Worker/Invariant states what is valid, Worker/History
--   runs a list of calls, and Worker/Settling, Completing, Claiming and Idempotency are about
--   single methods. Worker/Policy is worker-failure-policy.ts, Worker/Runner is
--   bounded-worker-runner.ts, which calls the repository and the policy.
-- - Agent: src/agent. Agent/Context is context-bundle.ts, Agent/Plan experiment-plan.ts,
--   Agent/Validator experiment-validator.ts, Agent/Run the types, schemas and audit store of
--   agent-sidecar.ts, and Agent/Boundary result-boundary.ts: Artifacts makes a hypothesis and a plan
--   of a draft, Evaluate judges them and asks for a review. Agent/Sidecar is runAgentAttempt of
--   agent-sidecar.ts: Tools has guardedToolCall, Attempt the checks, Turns the run. A harness is a
--   tree of tool calls. Agent/Prepared is prepared-attempt.ts, which prepares what the sidecar runs:
--   Policy, Schemas, Prepare, and Tools for its read-only tools; Runs puts the two
--   together. A schema is a test on an object with the schema's fields; an unknown value is
--   an optional one.
-- - Review: src/merchant-review/experiment-review.ts: the lifecycle of an action, the decisions on a
--   review (Review/Decisions), the submission of a plan (Review/Submission), the preference that a
--   rejection may lead to (Review/Preferences), and the events of the merchant's actions
--   (Review/Events), which the ingestion receives.
--
-- The handlers call the store and the sink; the runner calls claim, then checkpoint and complete,
-- and, if something is thrown, the failure policy, which calls retry or deadLetter. The result
-- boundary calls the validator, the review's submission and the audit store. The sidecar takes a
-- prepared attempt, and writes that store and the runs that the boundary judges.
--
-- Every SQL statement is one atomic step on the tables. An interleaving of workers is a list of
-- calls, in which complete, which has two statements, is also had apart: a checkpoint and a later
-- mark. A jsonb column may refuse a value, which undoes the statement; of an enqueued watermark it
-- is taken not to, and numbers are taken to be within their columns. In the worker's part a query
-- is always answered: a connection that is lost, before or after the statement, is not modelled.
-- The constraints of migrations/0009_worker_jobs.sql that a method can violate are modelled: the
-- checks on max_attempts and on a dead letter's attempt_count, and the unique keys on jobs and
-- attempts. The unique index on a checkpoint's scope is not: a row's id is made from that scope. A
-- Date and its ISO text are the milliseconds, as natural numbers. A run of a list of calls, of a
-- batch, of a harness and of a sanitized diagnostic is structural recursion; there is no fuel.
--
-- Parameters stand for what is not in the repository: zod's parsing of a payload (Payloads) and of
-- a record (base), sha256, the database's md5, order of texts and jsonb columns (Host),
-- JavaScript's texts and regular expressions (Texts), numbers and sorting (Numbers, Sorting), the
-- clock, dates, patterns, callbacks, raw tools and harness of a run of an agent (World), what Node
-- gives to a preparing (Platform), and the building and writing of a worker's output. A zod schema
-- whose plain object fails is rejected before its refinement counts. The digest of a job's identity
-- is one parameter of Host, with stableStringify, whose text is only hashed.
--
-- Not modelled: the HTTP layer, configuration, logs and metrics, which are input and output; the
-- producers, the evidence store, projections, snapshots and benchmarks, and what the workers build
-- from them.
pub mod Base
pub mod Contract
pub mod Ingestion
pub mod Worker
pub mod Agent
pub mod Review
