-- ===== src/Worker/Invariant.antt =====
-- What holds of the tables of durable-worker-job-repository.ts after any sequence of its methods.
pub mod Frame
pub mod Enqueue
pub mod Claim
pub mod Progress
pub mod Failure
use data_dyna.Base.{
  ℕ, String, Option, none, some, List, Bool, true, false, ◌==◌, string_eq, nat_eq, ◌≡◌, ◌≢◌, ◌≤◌,
  ◌<◌, any, count, All,
}
use data_dyna.Base.Table.{Distinct}
use data_dyna.Worker.Types.{WorkerJobStatus, WorkerJobAttemptRecord}
use data_dyna.Worker.Tables.{WorkerJobRow, Database, is_job}
use data_dyna.Worker.Repository.Claim.{is_waiting}
use data_dyna.Worker.Repository.Progress.{is_running}

abbrev pub is_finished : WorkerJobStatus → Bool
is_finished WorkerJobStatus.succeeded = true
is_finished WorkerJobStatus.dead_lettered = true
is_finished _ = false

-- The statuses that no method writes are the other two.
abbrev pub is_written : WorkerJobStatus → Bool
is_written WorkerJobStatus.claimed = false
is_written WorkerJobStatus.cancelled_by_operator = false
is_written _ = true

pub record IsSound (j : WorkerJobRow) : Type 0 where
  pub bounded : j.attempt_count ≤ j.max_attempts
  pub waiting : is_waiting j.status ≡ true → j.attempt_count < j.max_attempts
  pub held : is_running j.status ≡ true → j.locked_by ≢ none
  pub free : is_running j.status ≡ false → (j.locked_by ≡ none) × (j.locked_until ≡ none)
  pub finished : is_finished j.status ≡ true → j.completed_at ≢ none
  pub written : is_written j.status ≡ true

abbrev pub of_job : String → WorkerJobAttemptRecord → Bool
of_job id a = a.job_id == id

-- The attempts of a job are as many as it has counted.
abbrev pub Counted : List WorkerJobAttemptRecord → WorkerJobRow → Type 0
Counted attempts j = count (of_job j.job_id) attempts ≡ j.attempt_count

abbrev pub Numbered : List WorkerJobAttemptRecord → WorkerJobRow → Type 0
Numbered attempts j =
    All (λ a. of_job j.job_id a ≡ true → a.attempt_number ≤ j.attempt_count) attempts

abbrev pub Owned : List WorkerJobRow → WorkerJobAttemptRecord → Type 0
Owned jobs a = any (is_job a.job_id) jobs ≡ true

pub record Valid (jobs : List WorkerJobRow) (attempts : List WorkerJobAttemptRecord) (next : ℕ)
    : Type 0 where
  pub distinct : Distinct (λ j. j.job_id) jobs
  pub sound : All IsSound jobs
  pub counted : All (Counted attempts) jobs
  pub numbered : All (Numbered attempts) jobs
  pub owned : All (Owned jobs) attempts
  pub distinct_attempts : Distinct (λ a. a.attempt_id) attempts
  pub serial : All (λ a. a.attempt_id < next) attempts

abbrev pub IsValid : Database → Type 0
IsValid db = Valid db.jobs db.attempts db.next_attempt_id
