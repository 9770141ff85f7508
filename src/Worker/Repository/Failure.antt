-- ===== src/Worker/Repository/Failure.antt =====
-- `retry` and `deadLetter` of durable-worker-job-repository.ts.
use data_dyna.Base.{
  ℕ, String, Option, none, some, List, ◌++◌, [], ◌∷◌, Bool, ◌&&◌, ◌==◌, string_eq, nat_eq, ok,
  thrown, any, find?, update_where, if◌then◌else◌, ltb,
}
use data_dyna.Contract.{Fields, Json, str, get_field}
use data_dyna.Worker.Types.{
  WorkerJobStatus, WorkerAttemptStatus, WorkerJobAttemptRecord, WorkerJobRecord, WorkerFailureClass,
  violation,
}
use data_dyna.Worker.Repository.Columns.{JsonColumns, to_jsonb, given}
use data_dyna.Worker.Tables.{
  WorkerJobRow, WorkerDeadLetterRow, Query, is_job, is_attempt, no_row, to_worker_job_record,
}

abbrev text_of : Option Json → Option String
text_of (some (str s)) = some s
text_of _ = none

unfoldable pub safe_reason : Fields → Option String
unfolding get_field
safe_reason diagnostic = text_of (get_field "reasonCode" diagnostic)

unfoldable pub failed_attempt :
    WorkerAttemptStatus
    → WorkerFailureClass
    → Fields
    → ℕ
    → WorkerJobAttemptRecord
    → WorkerJobAttemptRecord
failed_attempt status failure_class diagnostic now a = record a {
  status = status;
  failure_class = some failure_class;
  safe_diagnostic = diagnostic;
  finished_at = some now;
}

unfoldable pub retried_row : WorkerFailureClass → ℕ → Fields → ℕ → WorkerJobRow → WorkerJobRow
unfolding safe_reason
retried_row failure_class next_run_at diagnostic now j = record j {
  status = WorkerJobStatus.retry_scheduled;
  locked_by = none;
  locked_until = none;
  next_run_at = next_run_at;
  last_error_class = some failure_class;
  last_error_reason = safe_reason diagnostic;
  updated_at = now;
}

abbrev pub may_retry : String → WorkerJobRow → Bool
may_retry id j = is_job id j && ltb j.attempt_count j.max_attempts

abbrev pub both :
    Option WorkerJobRow
    → Option WorkerJobAttemptRecord
    → Option (WorkerJobRow × WorkerJobAttemptRecord)
both (some j) (some a) = some (j, a)
both _ _ = none

-- The statement of `retry`, with the diagnostic as it is and as its column stores it.
unfoldable pub retry_stored :
    String → ℕ → WorkerFailureClass → ℕ → Fields → ℕ → (stored : Fields) → Query WorkerJobRecord
unfolding failed_attempt retried_row
retry_stored job_id attempt_id failure_class next_run_at diagnostic now stored db =
    elim (both (find? (may_retry job_id) db.jobs)
      (find? (is_attempt job_id attempt_id) db.attempts)) [
        | none ↦ (
          db,
          thrown (no_row "Worker retry was not persisted; max attempts may already be reached."),
        )
        | some (j, a) ↦ (
          record db {
            jobs =
                update_where (is_job job_id) (retried_row failure_class next_run_at diagnostic now)
                  db.jobs;
            attempts =
                update_where (is_attempt job_id attempt_id)
                  (failed_attempt WorkerAttemptStatus.retryable_failed failure_class stored now)
                  db.attempts;
          },
          ok (to_worker_job_record (retried_row failure_class next_run_at diagnostic now j)),
        )
      ]

unfoldable pub retry :
    JsonColumns → String → ℕ → WorkerFailureClass → ℕ → Fields → ℕ → Query WorkerJobRecord
unfolding retry_stored
retry columns job_id attempt_id failure_class next_run_at diagnostic now =
    given (to_jsonb columns diagnostic "worker retry diagnostic")
      (retry_stored job_id attempt_id failure_class next_run_at diagnostic now)

unfoldable pub dead_row : WorkerFailureClass → String → ℕ → WorkerJobRow → WorkerJobRow
dead_row failure_class reason now j = record j {
  status = WorkerJobStatus.dead_lettered;
  locked_by = none;
  locked_until = none;
  completed_at = some now;
  last_error_class = some failure_class;
  last_error_reason = some reason;
  updated_at = now;
}

unfoldable pub letter_row :
    WorkerJobRow → ℕ → WorkerFailureClass → String → Fields → String → ℕ → WorkerDeadLetterRow
letter_row j attempt_id failure_class reason diagnostic action now = record {
  job_id = j.job_id;
  attempt_id = attempt_id;
  worker_kind = j.worker_kind;
  brand_id = j.brand_id;
  merchant_id = j.merchant_id;
  store_id = j.store_id;
  source = j.source;
  producer_service = j.producer_service;
  producer_environment = j.producer_environment;
  input_watermark = j.input_watermark;
  attempt_count = j.attempt_count;
  failure_class = failure_class;
  reason_code = reason;
  safe_diagnostic = diagnostic;
  next_operator_action = action;
  created_at = now;
}

-- `ON CONFLICT (job_id) DO UPDATE`.
unfoldable pub rewritten_letter : WorkerDeadLetterRow → WorkerDeadLetterRow → WorkerDeadLetterRow
rewritten_letter new old = record old {
  attempt_id = new.attempt_id;
  attempt_count = new.attempt_count;
  failure_class = new.failure_class;
  reason_code = new.reason_code;
  safe_diagnostic = new.safe_diagnostic;
  next_operator_action = new.next_operator_action;
  created_at = new.created_at;
}

abbrev pub is_letter : String → WorkerDeadLetterRow → Bool
is_letter id l = l.job_id == id

unfoldable pub upsert_letter :
    WorkerDeadLetterRow → List WorkerDeadLetterRow → List WorkerDeadLetterRow
unfolding rewritten_letter
upsert_letter new table =
    if any (is_letter new.job_id) table
    then update_where (is_letter new.job_id) (rewritten_letter new) table
    else table ++ new ∷ []

-- The statement of `deadLetter`, with the diagnostic as its column stores it.
unfoldable pub dead_letter_stored :
    String
    → ℕ
    → WorkerFailureClass
    → String
    → String
    → ℕ
    → (stored : Fields) → Query WorkerJobRecord
unfolding failed_attempt dead_row letter_row upsert_letter
dead_letter_stored job_id attempt_id failure_class reason action now stored db =
    let attempts =
      update_where (is_attempt job_id attempt_id)
        (failed_attempt WorkerAttemptStatus.dead_lettered failure_class stored now) db.attempts in
    elim (both (find? (is_job job_id) db.jobs) (find? (is_attempt job_id attempt_id) db.attempts)) [
      | none ↦ (
        record db { attempts = attempts },
        thrown (no_row "Worker dead-letter did not return a row."),
      )
      | some (j, a) ↦
          let row = dead_row failure_class reason now j in
          if j.attempt_count == 0
          then (db, thrown (violation "worker_dead_letters_attempt_count_check"))
          else (
            record db {
              jobs = update_where (is_job job_id) (dead_row failure_class reason now) db.jobs;
              attempts = attempts;
              dead_letters =
                  upsert_letter (letter_row row a.attempt_id failure_class reason stored action now)
                    db.dead_letters;
            },
            ok (to_worker_job_record row),
          )
    ]

unfoldable pub dead_letter :
    JsonColumns
    → String
    → ℕ
    → WorkerFailureClass
    → String
    → Fields
    → String
    → ℕ
    → Query WorkerJobRecord
unfolding dead_letter_stored
dead_letter columns job_id attempt_id failure_class reason diagnostic action now =
    given (to_jsonb columns diagnostic "worker dead-letter diagnostic")
      (dead_letter_stored job_id attempt_id failure_class reason action now)
