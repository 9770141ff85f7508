-- ===== src/Worker/History.antt =====
-- Any sequence of calls of the repository in durable-worker-job-repository.ts, by any number of
-- workers: each statement is atomic, so an interleaving is a list of calls. A `complete`
-- whose two statements have others between them is a `checkpoints` and a later `marks`.
use data_dyna.Base.{ℕ, String, List, [], ◌∷◌, Bool}
use data_dyna.Contract.{Fields}
use data_dyna.Worker.Types.{
  WorkerFailureClass, WorkerWatermark, EnqueueWorkerJobInput, ClaimWorkerJobInput,
}
use data_dyna.Worker.Tables.{Database, no_rows}
use data_dyna.Worker.Repository.Enqueue.{JobIdentity, enqueue}
use data_dyna.Worker.Repository.Columns.{JsonColumns}
use data_dyna.Worker.Repository.Claim.{claim}
use data_dyna.Worker.Repository.Progress.{heartbeat, checkpoint, complete, mark_succeeded}
use data_dyna.Worker.Repository.Failure.{retry, dead_letter}
use data_dyna.Worker.Invariant.{IsValid}
use data_dyna.Worker.Invariant.Enqueue.{enqueue-IsValid}
use data_dyna.Worker.Invariant.Claim.{claim-IsValid}
use data_dyna.Worker.Invariant.Progress.{
  heartbeat-IsValid, checkpoint-IsValid, complete-IsValid, mark_succeeded-IsValid,
}
use data_dyna.Worker.Invariant.Failure.{retry-IsValid, dead_letter-IsValid}

-- What the repository takes from its host and from the database.
pub record Host : Type 0 where
  pub hash_stable_json : JobIdentity → String
  pub md5 : String → String
  pub text_le : String → String → Bool
  pub columns : JsonColumns

pub data Call : Type 0 where
  enqueues : EnqueueWorkerJobInput → Call
  claims : ClaimWorkerJobInput → Call
  beats : (job_id : String) (attempt_id now : ℕ) → Call
  checkpoints : (job_id : String) (attempt_id : ℕ) → WorkerWatermark → Fields → (now : ℕ) → Call
  completes : (job_id : String) (attempt_id : ℕ) → WorkerWatermark → Fields → (now : ℕ) → Call
  marks : (job_id : String) (attempt_id : ℕ) → WorkerWatermark → (now : ℕ) → Call
  retries :
      (job_id : String) (attempt_id : ℕ)
      → WorkerFailureClass
      → (next_run_at : ℕ) → Fields
      → (now : ℕ) → Call
  buries :
      (job_id : String) (attempt_id : ℕ)
      → WorkerFailureClass
      → (reason : String) → Fields
      → (action : String) → (now : ℕ) → Call

module _ (host : Host) where
  -- The tables that a call leaves, whether it returns or throws.
  unfoldable pub perform : Call → Database → Database
  unfolding enqueue claim heartbeat checkpoint complete mark_succeeded retry dead_letter
  perform (enqueues input) db = (enqueue host.hash_stable_json input db).0
  perform (claims input) db = (claim host.text_le input db).0
  perform (beats job_id attempt_id now) db = (heartbeat job_id attempt_id now db).0
  perform (checkpoints job_id attempt_id w summary now) db =
      (checkpoint host.md5 host.columns job_id attempt_id w summary now db).0
  perform (completes job_id attempt_id w summary now) db =
      (complete host.md5 host.columns job_id attempt_id w summary now db).0
  perform (marks job_id attempt_id w now) db =
      (mark_succeeded host.columns job_id attempt_id w now db).0
  perform (retries job_id attempt_id c at' d now) db =
      (retry host.columns job_id attempt_id c at' d now db).0
  perform (buries job_id attempt_id c reason d action now) db =
      (dead_letter host.columns job_id attempt_id c reason d action now db).0

  unfoldable pub run : List Call → Database → Database
  unfolding perform
  run [] db = db
  run (c ∷ cs) db = run cs (perform c db)

  perform-IsValid : (c : Call) (db : Database) → IsValid db → IsValid (perform c db)
  unfolding perform
  perform-IsValid (enqueues input) db v = enqueue-IsValid host.hash_stable_json input db v
  perform-IsValid (claims input) db v = claim-IsValid host.text_le input db v
  perform-IsValid (beats job_id attempt_id now) db v = heartbeat-IsValid job_id attempt_id now db v
  perform-IsValid (checkpoints job_id attempt_id w summary now) db v =
      checkpoint-IsValid host.md5 host.columns job_id attempt_id w summary now db v
  perform-IsValid (completes job_id attempt_id w summary now) db v =
      complete-IsValid host.md5 host.columns job_id attempt_id w summary now db v
  perform-IsValid (marks job_id attempt_id w now) db v =
      mark_succeeded-IsValid host.columns job_id attempt_id w now db v
  perform-IsValid (retries job_id attempt_id c at' d now) db v =
      retry-IsValid host.columns job_id attempt_id c at' d now db v
  perform-IsValid (buries job_id attempt_id c reason d action now) db v =
      dead_letter-IsValid host.columns job_id attempt_id c reason d action now db v

  pub run-IsValid : (cs : List Call) (db : Database) → IsValid db → IsValid (run cs db)
  unfolding run
  run-IsValid [] db v = v
  run-IsValid (c ∷ cs) db v = run-IsValid cs (perform c db) (perform-IsValid c db v)

  -- After any sequence of repository calls on empty tables, the tables are valid: job and attempt
  -- ids are distinct, every attempt belongs to a job, a job has as many attempts as it has counted
  -- and no more than its maximum, waits only while an attempt is left, and is locked exactly while
  -- it runs.
  pub history-IsValid : (cs : List Call) → IsValid (run cs no_rows)
  history-IsValid cs = run-IsValid cs no_rows (record {
    distinct = tt;
    sound = tt;
    counted = tt;
    numbered = tt;
    owned = tt;
    distinct_attempts = tt;
    serial = tt;
  })
