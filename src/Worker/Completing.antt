-- ===== src/Worker/Completing.antt =====
-- How `complete` of durable-worker-job-repository.ts ends, on a job and an attempt in the tables.
use data_dyna.Base.{
  ℕ, String, none, some, ◌≡◌, ◌⊎◌, inl, inr, refl, sym, subst, find?, Outcome, ok, thrown,
  string_eq, nat_eq,
}
use data_dyna.Contract.{Fields}
use data_dyna.Worker.Types.{
  Thrown, WorkerJobStatus, WorkerAttemptStatus, WorkerJobRecord, WorkerJobAttemptRecord,
  WorkerWatermark, WorkerFreshnessRecord,
}
use data_dyna.Worker.Tables.{WorkerJobRow, Database, is_job, is_attempt, to_worker_job_record}
use data_dyna.Worker.Repository.Columns.{JsonColumns, to_jsonb}
use data_dyna.Worker.Repository.Progress.{
  succeeded_row, succeeded_attempt, mark_succeeded, and_mark, complete,
}
use data_dyna.Worker.Settling.{IsOpen, checkpoint-IsOpen, mark_succeeded-IsOpen}

-- The job and the attempt have succeeded, and no worker holds the job.
pub record IsSucceeded (db : Database) (job_id : String) (attempt_id now : ℕ) : Type 0 where
  pub row : WorkerJobRow
  pub found : find? (is_job job_id) db.jobs ≡ some row
  pub status : row.status ≡ WorkerJobStatus.succeeded
  pub released : row.locked_by ≡ none
  pub unleased : row.locked_until ≡ none
  pub completed : row.completed_at ≡ some now
  pub attempt : WorkerJobAttemptRecord
  pub attempt_found : find? (is_attempt job_id attempt_id) db.attempts ≡ some attempt
  pub attempt_status : attempt.status ≡ WorkerAttemptStatus.succeeded
  pub finished : attempt.finished_at ≡ some now

-- A column refuses one of the values that `complete` writes, with this error.
abbrev pub Refused : JsonColumns → (w summary : Fields) → Thrown → Type 0
Refused columns w summary e =
    (to_jsonb columns w "worker output watermark" ≡ thrown e)
    ⊎ (to_jsonb columns summary "worker output summary" ≡ thrown e)
    ⊎ (to_jsonb columns w "worker final watermark" ≡ thrown e)

module _ (job_id : String) (attempt_id : ℕ) (j : WorkerJobRow) (columns : JsonColumns)
    (w : WorkerWatermark) (summary : Fields) (now : ℕ) where
  -- The two endings.
  abbrev pub CompleteEnds : Database × Outcome Thrown WorkerJobRecord → Type 0
  CompleteEnds r =
      ((job : WorkerJobRecord) × (r.1 ≡ ok job)
        × (job.status ≡ WorkerJobStatus.succeeded)
        × IsSucceeded r.0 job_id attempt_id now)
      ⊎ ((e : Thrown) × (r.1 ≡ thrown e)
          × Refused columns w summary e
          × ((b : WorkerJobAttemptRecord) × IsOpen r.0 job_id attempt_id j b))

  succeeded_row-IsSucceeded :
      (db : Database) (a : WorkerJobAttemptRecord) (stored : Fields)
      → IsOpen db job_id attempt_id (succeeded_row now j) (succeeded_attempt stored now a)
      → IsSucceeded db job_id attempt_id now
  unfolding succeeded_row succeeded_attempt
  succeeded_row-IsSucceeded db a stored o = record {
    row = succeeded_row now j;
    found = o.job;
    status = refl;
    released = refl;
    unleased = refl;
    completed = refl;
    attempt = succeeded_attempt stored now a;
    attempt_found = o.attempt;
    attempt_status = refl;
    finished = refl;
  }

  shown_status : (to_worker_job_record (succeeded_row now j)).status ≡ WorkerJobStatus.succeeded
  unfolding succeeded_row to_worker_job_record
  shown_status = refl

  mark_ends :
      (db : Database) (a : WorkerJobAttemptRecord)
      → IsOpen db job_id attempt_id j a
      → CompleteEnds (mark_succeeded columns job_id attempt_id w now db)
  mark_ends db a o = elim (mark_succeeded-IsOpen db job_id attempt_id j a o columns w now) [
    | inl (e, (stored, kept)) ↦ inl (_, e, shown_status, succeeded_row-IsSucceeded _ a stored kept)
    | inr (e, k, refused) ↦ rw k (inr (e, refl, inr (inr refused), (a, o)))
  ]

  stopped :
      (md5 : String → String) (db : Database) (a : WorkerJobAttemptRecord) (e : Thrown)
      → IsOpen db job_id attempt_id j a
      → Refused columns w summary e
      → {r : Database × Outcome Thrown WorkerFreshnessRecord} → r ≡ (db, thrown e)
      → CompleteEnds (and_mark md5 columns job_id attempt_id w now r)
  unfolding and_mark
  stopped md5 db a e o refused k =
      subst (λ r. CompleteEnds (and_mark md5 columns job_id attempt_id w now r)) (sym k)
        (inr (e, refl, refused, (a, o)))

  -- With a database that answers, completing a job and an attempt that are in the tables, whatever
  -- status the job has, ends in one of two ways. It returns the job as succeeded, and in the
  -- tables the job has succeeded, is completed at that time and is held by no worker and no lease,
  -- and the attempt has succeeded and is finished at that time; or a jsonb column refuses the
  -- watermark or the summary, and that error is thrown, with the row of the job unchanged and the
  -- attempt still there.
  pub complete_ends :
      (md5 : String → String) (db : Database) (a : WorkerJobAttemptRecord)
      → IsOpen db job_id attempt_id j a
      → CompleteEnds (complete md5 columns job_id attempt_id w summary now db)
  unfolding complete
  complete_ends md5 db a o =
      elim (checkpoint-IsOpen db job_id attempt_id j a o columns md5 w summary now) [
        | inl (row, e, (b, still)) ↦ rw (e, and_mark) (mark_ends _ b still)
        | inr (e, k, inl refused) ↦ stopped md5 db a e o (inl refused) k
        | inr (e, k, inr refused) ↦ stopped md5 db a e o (inr (inl refused)) k
      ]
