-- ===== src/Worker/Runner/Runs.antt =====
-- How `runClaimedWorkerJob` of bounded-worker-runner.ts ends.
use data_dyna.Base.{
  ap, ◌⊎◌, thrown, ℕ, String, none, some, ◌&&◌, string_eq, nat_eq, ◌≡◌, ◌<◌, arith, refl,
  Bool-cases, inl, inr, ok, find?, coalesce, ltb,
}
use data_dyna.Worker.Types.{
  Thrown, ClaimedWorkerJob, WorkerJobRecord, WorkerJobStatus, WorkerJobAttemptRecord,
}
use data_dyna.Worker.Tables.{WorkerJobRow, Database, is_job}
use data_dyna.Worker.Repository.Failure.{
  retried_row, dead_row, retry_stored, dead_letter_stored, retry, dead_letter,
}
use data_dyna.Worker.Repository.Columns.{JsonColumns, to_jsonb, given_cases}
use data_dyna.Worker.Settling.{IsOpen, retry_stored_open, dead_letter_stored_open}
use data_dyna.Worker.Policy.{
  Texts, reason_text, WorkerFailurePolicyInput, FailureAction, WorkerFailureDecision,
  PersistedWorkerFailure, worker_failure_metadata,
}
use data_dyna.Worker.Policy.Persist.{
  inspect_and_replay, classify_worker_failure, persist_decision, with_decision,
  persist_worker_failure,
}

-- The job has the status, and no worker holds it.
abbrev pub Ended : Database → String → WorkerJobStatus → Type 0
Ended db job_id status =
    (j : WorkerJobRow) × (find? (is_job job_id) db.jobs ≡ some j)
    × (j.status ≡ status)
    × (j.locked_by ≡ none)

abbrev pub failed_status : FailureAction → WorkerJobStatus
failed_status FailureAction.retry = WorkerJobStatus.retry_scheduled
failed_status FailureAction.dead_letter = WorkerJobStatus.dead_lettered

-- The tables hold the claimed job as the claim showed it.
pub record IsHeld (db : Database) (c : ClaimedWorkerJob) (j : WorkerJobRow)
    (a : WorkerJobAttemptRecord) : Type 0 where
  pub opened : IsOpen db c.job.job_id c.attempt.attempt_id j a
  pub counted : c.job.attempt_count ≡ j.attempt_count
  pub limited : c.job.max_attempts ≡ j.max_attempts
  pub attempted : 0 < j.attempt_count

-- Only a job with an attempt left is scheduled again.
classify_retry :
    (texts : Texts) (c : ClaimedWorkerJob) (error : Thrown) (now : ℕ)
    (policy : WorkerFailurePolicyInput)
    → (classify_worker_failure texts c error now policy).action ≡ FailureAction.retry
    → c.job.attempt_count < c.job.max_attempts
unfolding classify_worker_failure
classify_retry texts c error now policy h =
    elim (Bool-cases
      ((worker_failure_metadata error).retryable && ltb c.job.attempt_count c.job.max_attempts)) [
        | inl again ↦ ground arith
        | inr no_more ↦ cc (rw no_more at h)
      ]

abbrev pub diagnostic_label : FailureAction → String
diagnostic_label FailureAction.retry = "worker retry diagnostic"
diagnostic_label FailureAction.dead_letter = "worker dead-letter diagnostic"

-- The diagnostic of a decision is no value of its column, with this error.
abbrev pub Unstorable : JsonColumns → WorkerFailureDecision → Thrown → Type 0
Unstorable columns d e = to_jsonb columns d.safe_diagnostic (diagnostic_label d.action) ≡ thrown e

module _ (columns : JsonColumns) (db : Database) (c : ClaimedWorkerJob) (j : WorkerJobRow)
    (a : WorkerJobAttemptRecord) (held : IsHeld db c j a) (now : ℕ) where
  persist_decision_ends :
      (d : WorkerFailureDecision) (action : FailureAction)
      → (action ≡ FailureAction.retry → c.job.attempt_count < c.job.max_attempts)
      → ((job : WorkerJobRecord) × ((persist_decision columns c now d action db).1 ≡ ok job)
          × Ended
              (persist_decision columns c now d action db).0
              c.job.job_id
              (failed_status action))
        ⊎ ((e : Thrown) × (persist_decision columns c now d action db ≡ (db, thrown e))
            × (to_jsonb columns d.safe_diagnostic (diagnostic_label action) ≡ thrown e))
  unfolding persist_decision retry dead_letter retried_row dead_row
  persist_decision_ends d FailureAction.retry has_room =
      let below = has_room refl in
      let room : j.attempt_count < j.max_attempts = omega (arith, held.counted, held.limited) in
      elim (given_cases (to_jsonb columns d.safe_diagnostic "worker retry diagnostic")
        (retry_stored c.job.job_id c.attempt.attempt_id d.failure_class (coalesce d.next_run_at now)
          d.safe_diagnostic now)
        db) [
          | inr (e, h, k) ↦ inr (e, k, h)
          | inl (stored, h, k) ↦
              let (e, row) =
                retry_stored_open db c.job.job_id c.attempt.attempt_id j a held.opened
                  d.failure_class (coalesce d.next_run_at now) d.safe_diagnostic now stored room in
              rw k (inl (_, e, (_, row, refl, refl)))
        ]
  persist_decision_ends d FailureAction.dead_letter has_room =
      elim (given_cases (to_jsonb columns d.safe_diagnostic "worker dead-letter diagnostic")
        (dead_letter_stored c.job.job_id c.attempt.attempt_id d.failure_class
          (reason_text d.reason_code) (coalesce d.next_operator_action inspect_and_replay) now)
        db) [
          | inr (e, h, k) ↦ inr (e, k, h)
          | inl (stored, h, k) ↦
              let (e, row) =
                dead_letter_stored_open db c.job.job_id c.attempt.attempt_id j a held.opened
                  d.failure_class (reason_text d.reason_code)
                  (coalesce d.next_operator_action inspect_and_replay) now stored held.attempted in
              rw k (inl (_, e, (_, row, refl, refl)))
        ]

  module _ (texts : Texts) (error : Thrown) (policy : WorkerFailurePolicyInput) where
    -- With a database that answers, the failure of a job that the tables hold as it was claimed is
    -- persisted, and the job is then scheduled again or dead-lettered, as the decision says, and
    -- no worker holds it; or its column refuses the diagnostic, and then that error is thrown and
    -- the tables are unchanged.
    pub persist_worker_failure_ends :
        ((f : PersistedWorkerFailure) × ((persist_worker_failure texts columns c error now policy
              db).1
            ≡ ok f)
          × Ended
              (persist_worker_failure texts columns c error now policy db).0
              c.job.job_id
              (failed_status f.decision.action))
        ⊎ ((e : Thrown) × (persist_worker_failure texts columns c error now policy db
              ≡ (db, thrown e))
            × Unstorable columns (classify_worker_failure texts c error now policy) e)
    unfolding persist_worker_failure with_decision
    persist_worker_failure_ends =
        let d = classify_worker_failure texts c error now policy in
        elim (persist_decision_ends d d.action (classify_retry texts c error now policy)) [
          | inl (job, e, ended) ↦ rw (e, with_decision) (inl (_, refl, ended))
          | inr (e, k, refused) ↦ inr (e, ap (with_decision d) k, refused)
        ]
