-- ===== src/Worker/Invariant/Failure.antt =====
-- `retry` and `deadLetter` of durable-worker-job-repository.ts keep the tables valid.
use data_dyna.Base.{
  ℕ, String, Option, none, some, ◌≡◌, ◌<◌, refl, subst, Bool-cases, ◌==◌, string_eq, nat_eq, inl,
  inr, find?, arith, All-update_where, update_where, ◌⊎◌, All, eq_iff,
}
use data_dyna.Base.Table.{find?_holds, All-update_found}
use data_dyna.Contract.{Fields}
use data_dyna.Worker.Types.{WorkerJobAttemptRecord, WorkerAttemptStatus, WorkerFailureClass}
use data_dyna.Worker.Repository.Columns.{JsonColumns, given-keeps}
use data_dyna.Worker.Tables.{WorkerJobRow, Database, is_job, is_attempt}
use data_dyna.Worker.Repository.Failure.{
  may_retry, both, failed_attempt, retried_row, retry_stored, retry, dead_row, dead_letter_stored,
  dead_letter,
}
use data_dyna.Worker.Invariant.{IsSound, IsValid}
use data_dyna.Worker.Invariant.Frame.{
  KeepsJob, KeepsAttempt, Valid-update_jobs, Valid-update_attempts,
}

pub both_cases :
    (o : Option WorkerJobRow) (q : Option WorkerJobAttemptRecord)
    → (both o q ≡ none)
      ⊎ ((j : WorkerJobRow) × (a : WorkerJobAttemptRecord) × (o ≡ some j)
          × (q ≡ some a)
          × (both o q ≡ some (j, a)))
both_cases none q = inl refl
both_cases (some j) none = inl refl
both_cases (some j) (some a) = inr (j, a, refl, refl, refl)

failed_attempt-keeps :
    (s : WorkerAttemptStatus) (c : WorkerFailureClass) (d : Fields) (now : ℕ)
    → KeepsAttempt (failed_attempt s c d now)
unfolding failed_attempt
failed_attempt-keeps s c d now = record { id = λ a. refl; job = λ a. refl; number = λ a. refl }

retried_row-keeps :
    (c : WorkerFailureClass) (at' : ℕ) (d : Fields) (now : ℕ) → KeepsJob (retried_row c at' d now)
unfolding retried_row
retried_row-keeps c at' d now = record { id = λ j. refl; attempts = λ j. refl }

dead_row-keeps :
    (c : WorkerFailureClass) (reason : String) (now : ℕ) → KeepsJob (dead_row c reason now)
unfolding dead_row
dead_row-keeps c reason now = record { id = λ j. refl; attempts = λ j. refl }

retried_row-IsSound :
    (c : WorkerFailureClass) (at' : ℕ) (d : Fields) (now : ℕ) (j : WorkerJobRow)
    → j.attempt_count < j.max_attempts
    → IsSound (retried_row c at' d now j)
unfolding retried_row
retried_row-IsSound c at' d now j room = ground arith

dead_row-IsSound :
    (c : WorkerFailureClass) (reason : String) (now : ℕ) (j : WorkerJobRow)
    → IsSound j
    → IsSound (dead_row c reason now j)
unfolding dead_row
dead_row-IsSound c reason now j h = ground arith

-- The row that `retry` looks for has the id that it updates by, and has an attempt left.
pub may_retry_holds :
    (db : Database) (id : String) (j : WorkerJobRow)
    → find? (may_retry id) db.jobs ≡ some j
    → (j.job_id ≡ id) × (j.attempt_count < j.max_attempts)
may_retry_holds db id j h =
    ground (arith, find?_holds (may_retry id) db.jobs j h, eq_iff j.job_id id)

retry_stored-IsValid :
    (job_id : String) (attempt_id : ℕ) (c : WorkerFailureClass) (at' : ℕ) (d : Fields) (now : ℕ)
    (stored : Fields) (db : Database)
    → IsValid db
    → IsValid (retry_stored job_id attempt_id c at' d now stored db).0
unfolding retry_stored
retry_stored-IsValid job_id attempt_id c at' d now stored db v =
    elim (both_cases (find? (may_retry job_id) db.jobs)
      (find? (is_attempt job_id attempt_id) db.attempts)) [
        | inl e ↦ rw (e, retry_stored) v
        | inr (j, a, found, _, e) ↦
            let (same, room) = may_retry_holds db job_id j found in
            let sound : All IsSound
                (update_where (is_job j.job_id) (retried_row c at' d now) db.jobs) =
              All-update_found (λ r. r.job_id) IsSound (may_retry job_id) (retried_row c at' d now)
                db.jobs j v.distinct found v.sound (retried_row-IsSound c at' d now j room) in
            rw (e, retry_stored)
              (Valid-update_attempts
                (Valid-update_jobs v (is_job job_id) (retried_row c at' d now)
                  (retried_row-keeps c at' d now)
                  (subst
                    (λ id. All IsSound (update_where (is_job id) (retried_row c at' d now) db.jobs))
                    same sound))
                (is_attempt job_id attempt_id) _ (failed_attempt-keeps _ c stored now))
      ]

dead_letter_stored-IsValid :
    (job_id : String) (attempt_id : ℕ) (c : WorkerFailureClass) (reason action : String) (now : ℕ)
    (d : Fields) (db : Database)
    → IsValid db
    → IsValid (dead_letter_stored job_id attempt_id c reason action now d db).0
unfolding dead_letter_stored
dead_letter_stored-IsValid job_id attempt_id c reason action now d db v =
    elim (both_cases (find? (is_job job_id) db.jobs)
      (find? (is_attempt job_id attempt_id) db.attempts)) [
        | inl e ↦
            rw (e, dead_letter_stored)
              (Valid-update_attempts v (is_attempt job_id attempt_id) _
                (failed_attempt-keeps _ c d now))
        | inr (j, a, _, _, e) ↦ elim (Bool-cases (j.attempt_count == 0)) [
          | inl none_yet ↦ rw (e, dead_letter_stored, none_yet) v
          | inr some_yet ↦
              rw (e, dead_letter_stored, some_yet)
                (Valid-update_attempts
                  (Valid-update_jobs v (is_job job_id) (dead_row c reason now)
                    (dead_row-keeps c reason now)
                    (All-update_where IsSound (is_job job_id) (dead_row c reason now) db.jobs
                      (λ r _ h. dead_row-IsSound c reason now r h) v.sound))
                  (is_attempt job_id attempt_id) _ (failed_attempt-keeps _ c d now))
        ]
      ]

module _ (columns : JsonColumns) where
  -- A retry keeps the tables valid, also where it throws.
  pub retry-IsValid :
      (job_id : String) (attempt_id : ℕ) (c : WorkerFailureClass) (at' : ℕ) (d : Fields) (now : ℕ)
      (db : Database)
      → IsValid db
      → IsValid (retry columns job_id attempt_id c at' d now db).0
  unfolding retry
  retry-IsValid job_id attempt_id c at' d now db v =
      given-keeps _ _ db IsValid v
        λ stored. retry_stored-IsValid job_id attempt_id c at' d now stored db v

  -- Dead-lettering keeps the tables valid, also where it throws.
  pub dead_letter-IsValid :
      (job_id : String) (attempt_id : ℕ) (c : WorkerFailureClass) (reason : String) (d : Fields)
      (action : String) (now : ℕ) (db : Database)
      → IsValid db
      → IsValid (dead_letter columns job_id attempt_id c reason d action now db).0
  unfolding dead_letter
  dead_letter-IsValid job_id attempt_id c reason d action now db v =
      given-keeps _ _ db IsValid v
        λ stored. dead_letter_stored-IsValid job_id attempt_id c reason action now stored db v
