-- ===== src/Worker/Tables.antt =====
-- The tables behind durable-worker-job-repository.ts (migrations/, worker jobs): their rows, and
-- the rows as the records that the repository returns. A table is a list of rows.
use data_dyna.Base.{ℕ, String, Option, List, [], Bool, ◌&&◌, ◌==◌, string_eq, nat_eq, Outcome}
use data_dyna.Contract.{Fields}
use data_dyna.Worker.Types.{
  WorkerKind, kind_eq, WorkerJobStatus, WorkerFailureClass, WorkerJobRecord, WorkerJobAttemptRecord,
  WorkerFreshnessRecord, ClaimedWorkerJob, from_column, Thrown, plain_error,
}

pub record WorkerJobRow : Type 0 where
  pub job_id : String
  pub worker_kind : WorkerKind
  pub status : WorkerJobStatus
  pub brand_id : Option String
  pub merchant_id : Option String
  pub store_id : Option String
  pub source : String
  pub producer_service : Option String
  pub producer_environment : Option String
  pub input_watermark : Fields
  pub idempotency_identity : String
  pub correlation_id : String
  pub attempt_count : ℕ
  pub max_attempts : ℕ
  pub locked_by : Option String
  pub locked_until : Option ℕ
  pub heartbeat_at : Option ℕ
  pub next_run_at : ℕ
  pub started_at : Option ℕ
  pub completed_at : Option ℕ
  pub last_error_class : Option WorkerFailureClass
  pub last_error_reason : Option String
  pub created_at : ℕ
  pub updated_at : ℕ

pub record WorkerFreshnessRow : Type 0 where
  pub checkpoint_id : String
  pub worker_kind : WorkerKind
  pub brand_id : Option String
  pub merchant_id : Option String
  pub store_id : Option String
  pub source : String
  pub producer_service : Option String
  pub producer_environment : Option String
  pub committed_watermark : Fields
  pub committed_job_id : String
  pub committed_attempt_id : ℕ
  pub output_summary : Fields
  pub committed_at : ℕ
  pub updated_at : ℕ

-- A row of `worker_dead_letters`, less its serial number.
pub record WorkerDeadLetterRow : Type 0 where
  pub job_id : String
  pub attempt_id : ℕ
  pub worker_kind : WorkerKind
  pub brand_id : Option String
  pub merchant_id : Option String
  pub store_id : Option String
  pub source : String
  pub producer_service : Option String
  pub producer_environment : Option String
  pub input_watermark : Fields
  pub attempt_count : ℕ
  pub failure_class : WorkerFailureClass
  pub reason_code : String
  pub safe_diagnostic : Fields
  pub next_operator_action : String
  pub created_at : ℕ

pub record Database : Type 0 where
  pub jobs : List WorkerJobRow
  pub attempts : List WorkerJobAttemptRecord
  pub next_attempt_id : ℕ
  pub checkpoints : List WorkerFreshnessRow
  pub dead_letters : List WorkerDeadLetterRow

abbrev pub no_rows : Database
no_rows = record {
  jobs = [];
  attempts = [];
  next_attempt_id = 1;
  checkpoints = [];
  dead_letters = [];
}

-- A method of the repository: what it returns or throws, and the database that it leaves.
abbrev pub Query : Type 0 → Type 0
Query A = Database → Database × Outcome Thrown A

abbrev pub no_row : String → Thrown
no_row message = plain_error "Error" message

-- `WHERE job_id = $1`, and `WHERE attempt_id = $2 AND job_id = $1`.
abbrev pub is_job : String → WorkerJobRow → Bool
is_job id j = j.job_id == id

abbrev pub is_attempt : String → ℕ → WorkerJobAttemptRecord → Bool
is_attempt job_id attempt_id a = a.attempt_id == attempt_id && a.job_id == job_id

unfoldable pub to_worker_job_record : WorkerJobRow → WorkerJobRecord
to_worker_job_record row = record {
  job_id = row.job_id;
  worker_kind = row.worker_kind;
  status = row.status;
  tenant_scope = record {
    brand_id = from_column row.brand_id;
    merchant_id = from_column row.merchant_id;
    store_id = from_column row.store_id;
  };
  source_scope = record {
    source = row.source;
    producer_service = from_column row.producer_service;
    producer_environment = from_column row.producer_environment;
  };
  input_watermark = row.input_watermark;
  idempotency_identity = row.idempotency_identity;
  correlation_id = row.correlation_id;
  attempt_count = row.attempt_count;
  max_attempts = row.max_attempts;
  locked_by = row.locked_by;
  locked_until = row.locked_until;
  heartbeat_at = row.heartbeat_at;
  next_run_at = row.next_run_at;
  started_at = row.started_at;
  completed_at = row.completed_at;
  last_error_class = row.last_error_class;
  last_error_reason = row.last_error_reason;
  created_at = row.created_at;
  updated_at = row.updated_at;
}

unfoldable pub to_claimed_worker_job : WorkerJobRow → WorkerJobAttemptRecord → ClaimedWorkerJob
to_claimed_worker_job j a = record { job = to_worker_job_record j; attempt = a }

unfoldable pub to_worker_freshness_record : WorkerFreshnessRow → WorkerFreshnessRecord
to_worker_freshness_record row = record {
  checkpoint_id = row.checkpoint_id;
  worker_kind = row.worker_kind;
  tenant_scope = record {
    brand_id = from_column row.brand_id;
    merchant_id = from_column row.merchant_id;
    store_id = from_column row.store_id;
  };
  source_scope = record {
    source = row.source;
    producer_service = from_column row.producer_service;
    producer_environment = from_column row.producer_environment;
  };
  committed_watermark = row.committed_watermark;
  committed_job_id = row.committed_job_id;
  committed_attempt_id = row.committed_attempt_id;
  output_summary = row.output_summary;
  committed_at = row.committed_at;
  updated_at = row.updated_at;
}
