-- ===== src/Worker/Runner.antt =====
-- src/app/workers/bounded-worker-runner.ts: one claim, its output, and how it ends. The
-- observability calls are left out. `build_output` and `write_output` are parameters: what they
-- return or throw. They do not touch the worker tables. A query is answered: a lost connection is not
-- modelled.
pub mod Runs
pub mod Ends
pub mod Tables
use data_dyna.Base.{ℕ, String, Option, none, some, coalesce, Outcome, ok, thrown}
use data_dyna.Contract.{Fields}
use data_dyna.Worker.Types.{
  Thrown, WorkerKind, ClaimWorkerJobInput, ClaimedWorkerJob, WorkerJobRecord, WorkerFreshnessRecord,
  WorkerWatermark, WorkerTenantScope, WorkerSourceScope,
}
use data_dyna.Worker.Tables.{Database, Query}
use data_dyna.Worker.Repository.Claim.{claim}
use data_dyna.Worker.Repository.Progress.{checkpoint, complete, read_freshness}
use data_dyna.Worker.Policy.{Texts, WorkerFailurePolicyInput, PersistedWorkerFailure}
use data_dyna.Worker.Policy.Persist.{persist_worker_failure}
use data_dyna.Worker.History.{Host}

pub record BuiltOutput (Output : Type 0) : Type 0 where
  pub output : Output
  pub output_watermark : WorkerWatermark
  pub output_summary : Fields

pub record CompletedRun (Output : Type 0) : Type 0 where
  pub claimed : ClaimedWorkerJob
  pub built : BuiltOutput Output
  pub freshness : WorkerFreshnessRecord
  pub completed_job : WorkerJobRecord

-- A failed run is "retry_scheduled" or "dead_lettered" by its decision's action. The kind is the
-- input's.
pub data BoundedWorkerRunResult (Output : Type 0) : Type 0 where
  idle : BoundedWorkerRunResult Output
  completed : CompletedRun Output → BoundedWorkerRunResult Output
  failed : ClaimedWorkerJob → PersistedWorkerFailure → BoundedWorkerRunResult Output

-- `write_output` gives what it throws, if it throws.
pub record RunClaimedWorkerJobInput (Output : Type 0) : Type 0 where
  pub worker_kind : WorkerKind
  pub worker_id : String
  pub lease_seconds : Option ℕ
  pub now : ℕ
  pub build_output : ClaimedWorkerJob → Outcome Thrown (BuiltOutput Output)
  pub write_output : Output → Option Thrown
  pub failure_policy : Option WorkerFailurePolicyInput

abbrev pub claim_input : {Output : Type 0} → RunClaimedWorkerJobInput Output → ClaimWorkerJobInput
claim_input input = record {
  worker_kind = input.worker_kind;
  worker_id = input.worker_id;
  now = input.now;
  lease_seconds = coalesce input.lease_seconds 60;
}

module _ {Output : Type 0} (host : Host) (texts : Texts)
    (input : RunClaimedWorkerJobInput Output) where
  unfoldable pub completed_with :
      ClaimedWorkerJob
      → BuiltOutput Output
      → WorkerFreshnessRecord
      → Database × Outcome Thrown WorkerJobRecord
      → Database × Outcome Thrown (BoundedWorkerRunResult Output)
  completed_with claimed built freshness (db, thrown e) = (db, thrown e)
  completed_with claimed built freshness (db, ok job) = (
    db,
    ok (
        completed (record {
          claimed = claimed;
          built = built;
          freshness = freshness;
          completed_job = job;
        })),
  )

  unfoldable pub and_complete :
      ClaimedWorkerJob
      → BuiltOutput Output
      → Database × Outcome Thrown WorkerFreshnessRecord
      → Database × Outcome Thrown (BoundedWorkerRunResult Output)
  unfolding complete completed_with
  and_complete claimed built (db, thrown e) = (db, thrown e)
  and_complete claimed built (db, ok freshness) = completed_with claimed built freshness (
      complete host.md5 host.columns claimed.job.job_id claimed.attempt.attempt_id
        built.output_watermark built.output_summary input.now db)

  -- What stands between `writeOutput` and the end of the `try` block.
  unfoldable pub after_write :
      ClaimedWorkerJob → BuiltOutput Output → Option Thrown → Query (BoundedWorkerRunResult Output)
  unfolding checkpoint and_complete
  after_write claimed built (some e) db = (db, thrown e)
  after_write claimed built none db = and_complete claimed built (
      checkpoint host.md5 host.columns claimed.job.job_id claimed.attempt.attempt_id
        built.output_watermark built.output_summary input.now db)

  unfoldable pub after_build :
      ClaimedWorkerJob → Outcome Thrown (BuiltOutput Output) → Query (BoundedWorkerRunResult Output)
  unfolding after_write
  after_build claimed (thrown e) db = (db, thrown e)
  after_build claimed (ok built) db = after_write claimed built (input.write_output built.output) db

  unfoldable pub with_failure :
      ClaimedWorkerJob
      → Database × Outcome Thrown PersistedWorkerFailure
      → Database × Outcome Thrown (BoundedWorkerRunResult Output)
  with_failure claimed (db, thrown e) = (db, thrown e)
  with_failure claimed (db, ok failure) = (db, ok (failed claimed failure))

  -- The `catch` block.
  unfoldable pub handle_failure :
      ClaimedWorkerJob
      → Option WorkerFailurePolicyInput
      → Database × Outcome Thrown (BoundedWorkerRunResult Output)
      → Database × Outcome Thrown (BoundedWorkerRunResult Output)
  unfolding persist_worker_failure with_failure
  handle_failure claimed policy (db, ok r) = (db, ok r)
  handle_failure claimed none (db, thrown e) = (db, thrown e)
  handle_failure claimed (some policy) (db, thrown e) =
      with_failure claimed (persist_worker_failure texts host.columns claimed e input.now policy db)

  unfoldable pub after_claim :
      Database × Outcome Thrown (Option ClaimedWorkerJob)
      → Database × Outcome Thrown (BoundedWorkerRunResult Output)
  unfolding after_build handle_failure
  after_claim (db, thrown e) = (db, thrown e)
  after_claim (db, ok none) = (db, ok idle)
  after_claim (db, ok (some claimed)) =
      handle_failure claimed input.failure_policy
        (after_build claimed (input.build_output claimed) db)

  unfoldable pub run_claimed_worker_job : Query (BoundedWorkerRunResult Output)
  unfolding claim after_claim
  run_claimed_worker_job db = after_claim (claim host.text_le (claim_input input) db)

abbrev pub resume_from : Option WorkerFreshnessRecord → WorkerWatermark → WorkerWatermark
resume_from none fallback = fallback
resume_from (some freshness) fallback = freshness.committed_watermark

unfoldable pub read_worker_resume_watermark :
    WorkerKind
    → WorkerTenantScope
    → WorkerSourceScope
    → WorkerWatermark
    → Database
    → WorkerWatermark
unfolding read_freshness
read_worker_resume_watermark kind tenant source fallback db =
    resume_from (read_freshness kind tenant source db) fallback
