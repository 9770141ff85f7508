-- ===== src/Worker/Types.antt =====
-- src/app/workers/worker-contract.ts and the types of durable-worker-job-repository.ts.
-- A `Date` and its ISO text are the number of milliseconds. A watermark, a summary and a diagnostic
-- is a JSON object.
use data_dyna.Base.{ℕ, String, Option, none, some, ◌≡◌, Bool, true, ◌↔◌, arith, Eq, nat_beq}
use data_dyna.Contract.{Fields}

pub data WorkerKind : Type 0 where
  projection snapshot benchmark evidence : WorkerKind

abbrev pub kind_text : WorkerKind → String
kind_text projection = "projection"
kind_text snapshot = "snapshot"
kind_text benchmark = "benchmark"
kind_text evidence = "evidence"

-- The place of a kind in its declaration, for comparisons.
abbrev kind_index : WorkerKind → ℕ
kind_index projection = 0
kind_index snapshot = 1
kind_index benchmark = 2
kind_index evidence = 3

abbrev kind_beq : WorkerKind → WorkerKind → Bool
kind_beq a b = nat_beq (kind_index a) (kind_index b)

pub kind_beq_iff : (a b : WorkerKind) → (kind_beq a b ≡ true) ↔ (a ≡ b)
kind_beq_iff a b = ground arith

instance abbrev pub kind_eq : Eq WorkerKind
kind_eq = record { beq = kind_beq; beq_iff = kind_beq_iff }

pub data WorkerJobStatus : Type 0 where
  queued claimed running succeeded retry_scheduled dead_lettered : WorkerJobStatus
  cancelled_by_operator : WorkerJobStatus

pub data WorkerFailureClass : Type 0 where
  transient_storage transient_runtime contract_violation tenant_policy : WorkerFailureClass
  idempotency_conflict unexpected : WorkerFailureClass

pub data WorkerAttemptStatus : Type 0 where
  started checkpointed succeeded retryable_failed terminal_failed dead_lettered :
      WorkerAttemptStatus

-- An optional text property of a JavaScript object: `string | null | undefined`.
pub data OptionalText : Type 0 where
  undefined null : OptionalText
  text : String → OptionalText

-- `value ?? null`, as a column.
abbrev pub to_column : OptionalText → Option String
to_column undefined = none
to_column null = none
to_column (text s) = some s

-- A column, as `string | null`.
abbrev pub from_column : Option String → OptionalText
from_column none = null
from_column (some s) = text s

pub record WorkerTenantScope : Type 0 where
  pub brand_id : OptionalText
  pub merchant_id : OptionalText
  pub store_id : OptionalText

pub record WorkerSourceScope : Type 0 where
  pub source : String
  pub producer_service : OptionalText
  pub producer_environment : OptionalText

abbrev pub WorkerWatermark : Type 0
WorkerWatermark = Fields

pub record WorkerJobRecord : Type 0 where
  pub job_id : String
  pub worker_kind : WorkerKind
  pub status : WorkerJobStatus
  pub tenant_scope : WorkerTenantScope
  pub source_scope : WorkerSourceScope
  pub input_watermark : WorkerWatermark
  pub idempotency_identity : String
  pub correlation_id : String
  pub attempt_count : ℕ
  pub max_attempts : ℕ
  pub locked_by : Option String
  pub locked_until : Option ℕ
  pub heartbeat_at : Option ℕ
  pub next_run_at : ℕ
  pub started_at : Option ℕ
  pub completed_at : Option ℕ
  pub last_error_class : Option WorkerFailureClass
  pub last_error_reason : Option String
  pub created_at : ℕ
  pub updated_at : ℕ

-- A row of `worker_job_attempts`; the record that the repository returns has the same fields.
pub record WorkerJobAttemptRecord : Type 0 where
  pub attempt_id : ℕ
  pub job_id : String
  pub attempt_number : ℕ
  pub worker_kind : WorkerKind
  pub claimed_by : String
  pub status : WorkerAttemptStatus
  pub input_watermark : WorkerWatermark
  pub output_watermark : Option WorkerWatermark
  pub failure_class : Option WorkerFailureClass
  pub safe_diagnostic : Fields
  pub started_at : ℕ
  pub heartbeat_at : Option ℕ
  pub finished_at : Option ℕ

pub record ClaimedWorkerJob : Type 0 where
  pub job : WorkerJobRecord
  pub attempt : WorkerJobAttemptRecord

pub record WorkerFreshnessRecord : Type 0 where
  pub checkpoint_id : String
  pub worker_kind : WorkerKind
  pub tenant_scope : WorkerTenantScope
  pub source_scope : WorkerSourceScope
  pub committed_watermark : WorkerWatermark
  pub committed_job_id : String
  pub committed_attempt_id : ℕ
  pub output_summary : Fields
  pub committed_at : ℕ
  pub updated_at : ℕ

pub record EnqueueWorkerJobInput : Type 0 where
  pub worker_kind : WorkerKind
  pub tenant_scope : WorkerTenantScope
  pub source_scope : WorkerSourceScope
  pub input_watermark : WorkerWatermark
  pub idempotency_identity : String
  pub correlation_id : String
  pub max_attempts : Option ℕ
  pub now : ℕ

pub record ClaimWorkerJobInput : Type 0 where
  pub worker_kind : WorkerKind
  pub worker_id : String
  pub now : ℕ
  pub lease_seconds : ℕ

pub data WorkerFailureReasonCode : Type 0 where
  storage_unavailable runtime_exception contract_violation tenant_policy_rejected :
      WorkerFailureReasonCode
  idempotency_conflict unexpected_worker_failure : WorkerFailureReasonCode

-- `WorkerExecutionError` of worker-failure-policy.ts.
pub record WorkerExecutionError : Type 0 where
  pub message : String
  pub failure_class : WorkerFailureClass
  pub reason_code : WorkerFailureReasonCode
  pub retryable : Bool
  pub safe_diagnostic : Fields

-- What may be thrown. A violated constraint of the database is named; its message stands for the
-- driver's.
pub data Thrown : Type 0 where
  execution_error : WorkerExecutionError → Thrown
  plain_error : (name message : String) → Thrown
  violation : (constraint : String) → Thrown
  non_error : (type_name text : String) → Thrown
