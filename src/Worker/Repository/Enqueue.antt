-- ===== src/Worker/Repository/Enqueue.antt =====
-- `enqueue` of durable-worker-job-repository.ts. The sha256 digest of the stable JSON text of an
-- identity is the parameter `hash_stable_json`. The column is taken to store the watermark, and the
-- maximum of attempts to be within INTEGER.
use data_dyna.Base.{
  String, none, some, ◌++◌, [], ◌∷◌, Bool, true, false, ◌&&◌, ◌==◌, string_eq, nat_eq, coalesce, ok,
  thrown, any, find?, if◌then◌else◌,
}
use Prim.Native.String.{◌++◌ as string_append}
use data_dyna.Worker.Types.{
  WorkerKind, kind_eq, WorkerJobStatus, WorkerJobRecord, WorkerTenantScope, WorkerSourceScope,
  EnqueueWorkerJobInput, to_column, violation,
}
use data_dyna.Worker.Tables.{WorkerJobRow, Query, is_job, to_worker_job_record}

-- What the job id is made of.
pub record JobIdentity : Type 0 where
  pub idempotency_identity : String
  pub source_scope : WorkerSourceScope
  pub tenant_scope : WorkerTenantScope
  pub worker_kind : WorkerKind

abbrev pub identity_of : EnqueueWorkerJobInput → JobIdentity
identity_of input = record {
  idempotency_identity = input.idempotency_identity;
  source_scope = input.source_scope;
  tenant_scope = input.tenant_scope;
  worker_kind = input.worker_kind;
}

-- The key of the unique index `worker_jobs_idempotency_identity_unique_idx`.
abbrev pub same_index_key : WorkerJobRow → WorkerJobRow → Bool
same_index_key a b =
    a.worker_kind == b.worker_kind
    && coalesce a.merchant_id "" == coalesce b.merchant_id ""
    && coalesce a.store_id "" == coalesce b.store_id ""
    && a.source == b.source
    && coalesce a.producer_service "" == coalesce b.producer_service ""
    && coalesce a.producer_environment "" == coalesce b.producer_environment ""
    && a.idempotency_identity == b.idempotency_identity

-- The row that is inserted; `attempt_count` is 0 by default.
unfoldable pub queued_row : String → EnqueueWorkerJobInput → WorkerJobRow
queued_row job_id input = record {
  job_id = job_id;
  worker_kind = input.worker_kind;
  status = WorkerJobStatus.queued;
  brand_id = to_column input.tenant_scope.brand_id;
  merchant_id = to_column input.tenant_scope.merchant_id;
  store_id = to_column input.tenant_scope.store_id;
  source = input.source_scope.source;
  producer_service = to_column input.source_scope.producer_service;
  producer_environment = to_column input.source_scope.producer_environment;
  input_watermark = input.input_watermark;
  idempotency_identity = input.idempotency_identity;
  correlation_id = input.correlation_id;
  attempt_count = 0;
  max_attempts = coalesce input.max_attempts 3;
  locked_by = none;
  locked_until = none;
  heartbeat_at = none;
  next_run_at = input.now;
  started_at = none;
  completed_at = none;
  last_error_class = none;
  last_error_reason = none;
  created_at = input.now;
  updated_at = input.now;
}

pub record Enqueued : Type 0 where
  pub job : WorkerJobRecord
  pub duplicate : Bool

-- The constraints of the table come first, then `ON CONFLICT (job_id)`, then the unique index.
unfoldable pub insert_job : WorkerJobRow → Query Enqueued
insert_job row db =
    if row.max_attempts == 0
    then (db, thrown (violation "worker_jobs_max_attempts_check"))
    else elim (find? (is_job row.job_id) db.jobs) [
      | some existing ↦ (db, ok (record { job = to_worker_job_record existing; duplicate = true }))
      | none ↦
          if any (same_index_key row) db.jobs
          then (db, thrown (violation "worker_jobs_idempotency_identity_unique_idx"))
          else (
            record db { jobs = db.jobs ++ row ∷ [] },
            ok (record { job = to_worker_job_record row; duplicate = false }),
          )
    ]

module _ (hash_stable_json : JobIdentity → String) where
  unfoldable pub stable_worker_job_id : EnqueueWorkerJobInput → String
  stable_worker_job_id input = string_append "worker_job:" (hash_stable_json (identity_of input))

  unfoldable pub enqueue : EnqueueWorkerJobInput → Query Enqueued
  unfolding insert_job queued_row stable_worker_job_id
  enqueue input = insert_job (queued_row (stable_worker_job_id input) input)
