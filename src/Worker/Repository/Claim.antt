-- ===== src/Worker/Repository/Claim.antt =====
-- `claim` of durable-worker-job-repository.ts. The order of texts in the database is the parameter
-- `text_le`. No row is locked by another transaction between two statements.
use data_dyna.Base.{
  ℕ, suc, ◌+◌, ◌*◌, String, Option, none, some, List, ◌++◌, [], ◌∷◌, Bool, true, false, ◌&&◌, ◌||◌,
  ◌==◌, string_eq, nat_eq, coalesce, ok, thrown, any, select, update_where, if◌then◌else◌, leb, ltb,
}
use data_dyna.Contract.{end}
use data_dyna.Worker.Types.{
  WorkerKind, kind_eq, WorkerJobStatus, WorkerAttemptStatus, WorkerJobAttemptRecord,
  ClaimWorkerJobInput, ClaimedWorkerJob, violation,
}
use data_dyna.Worker.Tables.{WorkerJobRow, Query, is_job, to_claimed_worker_job}

-- `status IN ('queued', 'retry_scheduled')`.
abbrev pub is_waiting : WorkerJobStatus → Bool
is_waiting WorkerJobStatus.queued = true
is_waiting WorkerJobStatus.retry_scheduled = true
is_waiting _ = false

abbrev pub lock_is_free : Option ℕ → ℕ → Bool
lock_is_free none now = true
lock_is_free (some t) now = leb t now

unfoldable pub is_claimable : WorkerKind → ℕ → WorkerJobRow → Bool
is_claimable kind now j =
    j.worker_kind == kind
    && is_waiting j.status
    && leb j.next_run_at now
    && lock_is_free j.locked_until now
    && ltb j.attempt_count j.max_attempts

unfoldable pub claimed_row : ClaimWorkerJobInput → WorkerJobRow → WorkerJobRow
claimed_row input j = record j {
  status = WorkerJobStatus.running;
  locked_by = some input.worker_id;
  locked_until = some (input.now + input.lease_seconds * 1000);
  heartbeat_at = some input.now;
  started_at = some (coalesce j.started_at input.now);
  attempt_count = j.attempt_count + 1;
  updated_at = input.now;
}

unfoldable pub started_attempt : ClaimWorkerJobInput → ℕ → WorkerJobRow → WorkerJobAttemptRecord
started_attempt input attempt_id j = record {
  attempt_id = attempt_id;
  job_id = j.job_id;
  attempt_number = j.attempt_count;
  worker_kind = j.worker_kind;
  claimed_by = input.worker_id;
  status = WorkerAttemptStatus.started;
  input_watermark = j.input_watermark;
  output_watermark = none;
  failure_class = none;
  safe_diagnostic = end;
  started_at = input.now;
  heartbeat_at = some input.now;
  finished_at = none;
}

-- `UNIQUE (job_id, attempt_number)`.
abbrev pub same_attempt : WorkerJobAttemptRecord → WorkerJobAttemptRecord → Bool
same_attempt a b = a.job_id == b.job_id && a.attempt_number == b.attempt_number

module _ (text_le : String → String → Bool) where
  -- `ORDER BY next_run_at ASC, created_at ASC, job_id ASC`.
  unfoldable pub runs_before : WorkerJobRow → WorkerJobRow → Bool
  runs_before a b =
      ltb a.next_run_at b.next_run_at
      || (a.next_run_at == b.next_run_at
          && (ltb a.created_at b.created_at
              || (a.created_at == b.created_at && text_le a.job_id b.job_id)))

  abbrev pub earlier : WorkerJobRow → Option WorkerJobRow → Option WorkerJobRow
  earlier a none = some a
  earlier a (some b) = if runs_before a b then some a else some b

  -- `ORDER BY … LIMIT 1`.
  unfoldable pub first_in_order : List WorkerJobRow → Option WorkerJobRow
  first_in_order [] = none
  first_in_order (j ∷ js) = earlier j (first_in_order js)

  unfoldable pub start_attempt :
      ClaimWorkerJobInput → WorkerJobRow → Query (Option ClaimedWorkerJob)
  unfolding claimed_row started_attempt to_claimed_worker_job
  start_attempt input selected db =
      let job = claimed_row input selected in
      let attempt = started_attempt input db.next_attempt_id job in
      if any (same_attempt attempt) db.attempts
      then (db, thrown (violation "worker_job_attempts_job_id_attempt_number_key"))
      else (
        record db {
          jobs = update_where (is_job selected.job_id) (claimed_row input) db.jobs;
          attempts = db.attempts ++ attempt ∷ [];
          next_attempt_id = suc db.next_attempt_id;
        },
        ok (some (to_claimed_worker_job job attempt)),
      )

  unfoldable pub claim : ClaimWorkerJobInput → Query (Option ClaimedWorkerJob)
  unfolding first_in_order start_attempt is_claimable
  claim input db =
      elim (first_in_order (select (is_claimable input.worker_kind input.now) db.jobs)) [
        | none ↦ (db, ok none)
        | some selected ↦ start_attempt input selected db
      ]
