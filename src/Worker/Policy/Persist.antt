-- ===== src/Worker/Policy/Persist.antt =====
-- `classifyWorkerFailure` and `persistWorkerFailure` of worker-failure-policy.ts.
use data_dyna.Base.{ℕ, String, none, some, ◌&&◌, coalesce, Outcome, ok, thrown, if◌then◌else◌, ltb}
use data_dyna.Base.Int.{pos}
use data_dyna.Contract.{Fields, end, field, str, num, obj}
use data_dyna.Worker.Types.{Thrown, execution_error, ClaimedWorkerJob, WorkerJobRecord, kind_text}
use data_dyna.Worker.Tables.{Database, Query}
use data_dyna.Worker.Repository.Columns.{JsonColumns}
use data_dyna.Worker.Repository.Failure.{retry, dead_letter}
use data_dyna.Worker.Policy.{
  Texts, WorkerFailurePolicyInput, FailureAction, WorkerFailureDecision, PersistedWorkerFailure,
  FailureMetadata, class_text, reason_text, action_text, worker_failure_metadata, retry_backoff_at,
  safe_text, sanitize_diagnostic,
}

abbrev pub inspect_and_replay : String
inspect_and_replay = "inspect_safe_diagnostic_and_replay_after_fix"

abbrev unsafe_diagnostic : Thrown → Fields
unsafe_diagnostic (execution_error e) = e.safe_diagnostic
unsafe_diagnostic _ = end

unfoldable pub persist_decision :
    JsonColumns
    → ClaimedWorkerJob
    → ℕ
    → WorkerFailureDecision
    → FailureAction
    → Query WorkerJobRecord
unfolding retry dead_letter
persist_decision columns claimed now decision FailureAction.retry =
    retry columns claimed.job.job_id claimed.attempt.attempt_id decision.failure_class
      (coalesce decision.next_run_at now) decision.safe_diagnostic now
persist_decision columns claimed now decision FailureAction.dead_letter =
    dead_letter columns claimed.job.job_id claimed.attempt.attempt_id decision.failure_class
      (reason_text decision.reason_code) decision.safe_diagnostic
      (coalesce decision.next_operator_action inspect_and_replay) now

unfoldable pub with_decision :
    WorkerFailureDecision
    → Database × Outcome Thrown WorkerJobRecord
    → Database × Outcome Thrown PersistedWorkerFailure
with_decision decision (db, thrown e) = (db, thrown e)
with_decision decision (db, ok job) = (db, ok (record { decision = decision; failed_job = job }))

module _ (texts : Texts) where
  unfoldable pub build_safe_diagnostic :
      ClaimedWorkerJob → Thrown → FailureMetadata → FailureAction → Fields
  unfolding safe_text sanitize_diagnostic
  build_safe_diagnostic claimed error metadata action =
      field "workerKind" (str (kind_text claimed.job.worker_kind)) (
        field "jobId" (str claimed.job.job_id) (
          field "attemptId" (num (pos claimed.attempt.attempt_id)) (
            field "attemptCount" (num (pos claimed.job.attempt_count)) (
              field "maxAttempts" (num (pos claimed.job.max_attempts)) (
                field "action" (str (action_text action)) (
                  field "failureClass" (str (class_text metadata.failure_class)) (
                    field "reasonCode" (str (reason_text metadata.reason_code)) (
                      field "errorName" (str (safe_text texts metadata.error_name)) (
                        field "errorMessage" (str (safe_text texts metadata.error_message)) (
                          field "detail"
                            (sanitize_diagnostic texts (obj (unsafe_diagnostic error)) 0)
                            end))))))))))

  unfoldable pub classify_worker_failure :
      ClaimedWorkerJob → Thrown → ℕ → WorkerFailurePolicyInput → WorkerFailureDecision
  unfolding worker_failure_metadata build_safe_diagnostic retry_backoff_at
  classify_worker_failure claimed error now policy =
      let metadata = worker_failure_metadata error in
      let retryable =
        metadata.retryable && ltb claimed.job.attempt_count claimed.job.max_attempts in
      if retryable
      then record {
        action = FailureAction.retry;
        failure_class = metadata.failure_class;
        reason_code = metadata.reason_code;
        safe_diagnostic = build_safe_diagnostic claimed error metadata FailureAction.retry;
        next_run_at = some (retry_backoff_at claimed now policy);
        next_operator_action = none;
      }
      else record {
        action = FailureAction.dead_letter;
        failure_class = metadata.failure_class;
        reason_code = metadata.reason_code;
        safe_diagnostic = build_safe_diagnostic claimed error metadata FailureAction.dead_letter;
        next_run_at = none;
        next_operator_action = some (coalesce policy.next_operator_action inspect_and_replay);
      }

  unfoldable pub persist_worker_failure :
      JsonColumns
      → ClaimedWorkerJob
      → Thrown
      → ℕ
      → WorkerFailurePolicyInput
      → Query PersistedWorkerFailure
  unfolding classify_worker_failure persist_decision with_decision
  persist_worker_failure columns claimed error now policy db =
      let decision = classify_worker_failure claimed error now policy in
      with_decision decision (persist_decision columns claimed now decision decision.action db)
