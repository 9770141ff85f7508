-- ===== src/Worker/Invariant/Progress.antt =====
-- `heartbeat`, `checkpoint` and `complete` of durable-worker-job-repository.ts keep the tables
-- valid.
use data_dyna.Base.{
  ℕ, String, Option, none, some, ◌≡◌, refl, Outcome, ok, thrown, inl, inr, find?, arith,
  All-update_where, ◌⊎◌,
}
use data_dyna.Contract.{Fields}
use data_dyna.Worker.Types.{WorkerJobAttemptRecord, WorkerWatermark, WorkerFreshnessRecord, Thrown}
use data_dyna.Worker.Repository.Columns.{JsonColumns, given-keeps}
use data_dyna.Worker.Tables.{WorkerJobRow, Database, is_job, is_attempt}
use data_dyna.Worker.Repository.Progress.{
  is_running_job, beating_row, beating_attempt, joined, heartbeat, checkpointed_attempt,
  checkpoint_stored, checkpoint, mark_stored, succeeded_attempt, succeeded_row, mark_succeeded,
  and_mark, complete,
}
use data_dyna.Worker.Invariant.{IsSound, Valid, IsValid}
use data_dyna.Worker.Invariant.Frame.{
  KeepsJob, KeepsAttempt, Valid-update_jobs, Valid-update_attempts,
}

-- A row and an attempt were both found, or not.
pub joined_cases :
    (o : Option WorkerJobRow) (q : Option WorkerJobAttemptRecord)
    → (joined o q ≡ none)
      ⊎ ((j : WorkerJobRow) × (a : WorkerJobAttemptRecord) × (o ≡ some j)
          × (q ≡ some a)
          × (joined o q ≡ some (j, a)))
joined_cases none q = inl refl
joined_cases (some j) none = inl refl
joined_cases (some j) (some a) = inr (j, a, refl, refl, refl)

beating_row-keeps : (now : ℕ) → KeepsJob (beating_row now)
unfolding beating_row
beating_row-keeps now = record { id = λ j. refl; attempts = λ j. refl }

beating_attempt-keeps : (now : ℕ) → KeepsAttempt (beating_attempt now)
unfolding beating_attempt
beating_attempt-keeps now = record { id = λ a. refl; job = λ a. refl; number = λ a. refl }

checkpointed_attempt-keeps :
    (w : WorkerWatermark) (now : ℕ) → KeepsAttempt (checkpointed_attempt w now)
unfolding checkpointed_attempt
checkpointed_attempt-keeps w now = record { id = λ a. refl; job = λ a. refl; number = λ a. refl }

succeeded_attempt-keeps : (w : WorkerWatermark) (now : ℕ) → KeepsAttempt (succeeded_attempt w now)
unfolding succeeded_attempt
succeeded_attempt-keeps w now = record { id = λ a. refl; job = λ a. refl; number = λ a. refl }

succeeded_row-keeps : (now : ℕ) → KeepsJob (succeeded_row now)
unfolding succeeded_row
succeeded_row-keeps now = record { id = λ j. refl; attempts = λ j. refl }

beating_row-IsSound : (now : ℕ) (j : WorkerJobRow) → IsSound j → IsSound (beating_row now j)
unfolding beating_row
beating_row-IsSound now j h = record {
  bounded = h.bounded;
  waiting = h.waiting;
  held = h.held;
  free = h.free;
  finished = h.finished;
  written = h.written;
}

succeeded_row-IsSound : (now : ℕ) (j : WorkerJobRow) → IsSound j → IsSound (succeeded_row now j)
unfolding succeeded_row
succeeded_row-IsSound now j h = ground arith

-- A heartbeat keeps the tables valid.
pub heartbeat-IsValid :
    (job_id : String) (attempt_id now : ℕ) (db : Database)
    → IsValid db
    → IsValid (heartbeat job_id attempt_id now db).0
unfolding heartbeat
heartbeat-IsValid job_id attempt_id now db v =
    Valid-update_attempts
      (Valid-update_jobs v (is_running_job job_id) (beating_row now) (beating_row-keeps now) (
        All-update_where IsSound (is_running_job job_id) (beating_row now) db.jobs
          (λ j _ h. beating_row-IsSound now j h) v.sound))
      (is_attempt job_id attempt_id) (beating_attempt now) (beating_attempt-keeps now)

mark_stored-IsValid :
    (job_id : String) (attempt_id : ℕ) (now : ℕ) (w : WorkerWatermark) (db : Database)
    → IsValid db
    → IsValid (mark_stored job_id attempt_id now w db).0
unfolding mark_stored
mark_stored-IsValid job_id attempt_id now w db v =
    let attempts-valid = λ (jobs : _) (u : Valid jobs db.attempts db.next_attempt_id).
      Valid-update_attempts u (is_attempt job_id attempt_id) (succeeded_attempt w now)
        (succeeded_attempt-keeps w now) in
    elim (joined_cases (find? (is_job job_id) db.jobs)
      (find? (is_attempt job_id attempt_id) db.attempts)) [
        | inl e ↦ rw (e, mark_stored) (attempts-valid db.jobs v)
        | inr (j, a, _, _, e) ↦
            rw (e, mark_stored)
              (attempts-valid _ (
                Valid-update_jobs v (is_job job_id) (succeeded_row now) (succeeded_row-keeps now) (
                  All-update_where IsSound (is_job job_id) (succeeded_row now) db.jobs
                    (λ j _ h. succeeded_row-IsSound now j h) v.sound)))
      ]

-- Marking a job as succeeded keeps the tables valid, also where it throws.
pub mark_succeeded-IsValid :
    (columns : JsonColumns) (job_id : String) (attempt_id : ℕ) (w : WorkerWatermark) (now : ℕ)
    (db : Database)
    → IsValid db
    → IsValid (mark_succeeded columns job_id attempt_id w now db).0
unfolding mark_succeeded
mark_succeeded-IsValid columns job_id attempt_id w now db v =
    given-keeps _ _ db IsValid v λ stored. mark_stored-IsValid job_id attempt_id now stored db v

module _ (md5 : String → String) where
  checkpoint_stored-IsValid :
      (job_id : String) (attempt_id : ℕ) (now : ℕ) (w summary : Fields) (db : Database)
      → IsValid db
      → IsValid (checkpoint_stored md5 job_id attempt_id now w summary db).0
  unfolding checkpoint_stored
  checkpoint_stored-IsValid job_id attempt_id now w summary db v =
      let valid =
        Valid-update_attempts v (is_attempt job_id attempt_id) (checkpointed_attempt w now)
          (checkpointed_attempt-keeps w now) in
      elim (joined_cases (find? (is_job job_id) db.jobs)
        (find? (is_attempt job_id attempt_id) db.attempts)) [
          | inl e ↦ rw (e, checkpoint_stored) valid
          | inr (j, a, _, _, e) ↦ rw (e, checkpoint_stored) valid
        ]

  module _ (columns : JsonColumns) where
    -- A checkpoint keeps the tables valid, also where it throws.
    pub checkpoint-IsValid :
        (job_id : String) (attempt_id : ℕ) (w : WorkerWatermark) (summary : Fields) (now : ℕ)
        (db : Database)
        → IsValid db
        → IsValid (checkpoint md5 columns job_id attempt_id w summary now db).0
    unfolding checkpoint
    checkpoint-IsValid job_id attempt_id w summary now db v =
        given-keeps _ _ db IsValid v λ written. given-keeps _ _ db IsValid v λ written'.
          given-keeps _ _ db IsValid v λ stored_w.
            given-keeps _ _ db IsValid v
              λ stored. checkpoint_stored-IsValid job_id attempt_id now stored_w stored db v

    and_mark-IsValid :
        (job_id : String) (attempt_id : ℕ) (w : WorkerWatermark) (now : ℕ)
        (r : Database × Outcome Thrown WorkerFreshnessRecord)
        → IsValid r.0
        → IsValid (and_mark md5 columns job_id attempt_id w now r).0
    unfolding and_mark
    and_mark-IsValid job_id attempt_id w now (db, thrown e) v = v
    and_mark-IsValid job_id attempt_id w now (db, ok row) v =
        mark_succeeded-IsValid columns job_id attempt_id w now db v

    -- Completing a job keeps the tables valid, also where it throws.
    pub complete-IsValid :
        (job_id : String) (attempt_id : ℕ) (w : WorkerWatermark) (summary : Fields) (now : ℕ)
        (db : Database)
        → IsValid db
        → IsValid (complete md5 columns job_id attempt_id w summary now db).0
    unfolding complete
    complete-IsValid job_id attempt_id w summary now db v =
        and_mark-IsValid job_id attempt_id w now
          (checkpoint md5 columns job_id attempt_id w summary now db)
          (checkpoint-IsValid job_id attempt_id w summary now db v)
