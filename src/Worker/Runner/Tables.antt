-- ===== src/Worker/Runner/Tables.antt =====
-- A run of `runClaimedWorkerJob` and the invariant of the worker tables.
use data_dyna.Base.{ℕ, Option, none, some, Outcome, ok, thrown, coalesce}
use data_dyna.Worker.Types.{Thrown, ClaimedWorkerJob, WorkerJobRecord, WorkerFreshnessRecord}
use data_dyna.Worker.Repository.Columns.{JsonColumns}
use data_dyna.Worker.Tables.{Database}
use data_dyna.Worker.Repository.Claim.{claim}
use data_dyna.Worker.Repository.Progress.{checkpoint, complete}
use data_dyna.Worker.Invariant.{IsValid}
use data_dyna.Worker.Invariant.Claim.{claim-IsValid}
use data_dyna.Worker.Invariant.Progress.{checkpoint-IsValid, complete-IsValid}
use data_dyna.Worker.Invariant.Failure.{retry-IsValid, dead_letter-IsValid}
use data_dyna.Worker.History.{Host}
use data_dyna.Worker.Policy.{
  Texts, reason_text, WorkerFailurePolicyInput, FailureAction, WorkerFailureDecision,
  PersistedWorkerFailure,
}
use data_dyna.Worker.Policy.Persist.{
  inspect_and_replay, classify_worker_failure, persist_decision, with_decision,
  persist_worker_failure,
}
use data_dyna.Worker.Runner.{
  BuiltOutput, BoundedWorkerRunResult, RunClaimedWorkerJobInput, claim_input, completed_with,
  and_complete, after_write, after_build, with_failure, handle_failure, after_claim,
  run_claimed_worker_job,
}

abbrev Kept : {A : Type 0} → Database × Outcome Thrown A → Type 0
Kept p = IsValid p.0

persist_decision-IsValid :
    (columns : JsonColumns) (c : ClaimedWorkerJob) (now : ℕ) (d : WorkerFailureDecision)
    (action : FailureAction) (db : Database)
    → IsValid db
    → Kept (persist_decision columns c now d action db)
unfolding persist_decision
persist_decision-IsValid columns c now d FailureAction.retry db v =
    retry-IsValid columns c.job.job_id c.attempt.attempt_id d.failure_class
      (coalesce d.next_run_at now) d.safe_diagnostic now db v
persist_decision-IsValid columns c now d FailureAction.dead_letter db v =
    dead_letter-IsValid columns c.job.job_id c.attempt.attempt_id d.failure_class
      (reason_text d.reason_code) d.safe_diagnostic
      (coalesce d.next_operator_action inspect_and_replay) now db v

with_decision-Kept :
    (d : WorkerFailureDecision) (p : Database × Outcome Thrown WorkerJobRecord)
    → Kept p
    → Kept (with_decision d p)
unfolding with_decision
with_decision-Kept d (db, thrown e) v = v
with_decision-Kept d (db, ok job) v = v

module _ {Output : Type 0} (host : Host) (texts : Texts)
    (input : RunClaimedWorkerJobInput Output) where
  completed_with-Kept :
      (c : ClaimedWorkerJob) (b : BuiltOutput Output) (f : WorkerFreshnessRecord)
      (p : Database × Outcome Thrown WorkerJobRecord)
      → Kept p
      → Kept (completed_with host texts input c b f p)
  unfolding completed_with
  completed_with-Kept c b f (db, thrown e) v = v
  completed_with-Kept c b f (db, ok job) v = v

  and_complete-Kept :
      (c : ClaimedWorkerJob) (b : BuiltOutput Output)
      (p : Database × Outcome Thrown WorkerFreshnessRecord)
      → Kept p
      → Kept (and_complete host texts input c b p)
  unfolding and_complete
  and_complete-Kept c b (db, thrown e) v = v
  and_complete-Kept c b (db, ok f) v =
      completed_with-Kept c b f
        (complete host.md5 host.columns c.job.job_id c.attempt.attempt_id b.output_watermark
          b.output_summary input.now db)
        (complete-IsValid host.md5 host.columns c.job.job_id c.attempt.attempt_id b.output_watermark
          b.output_summary input.now db v)

  after_write-Kept :
      (c : ClaimedWorkerJob) (b : BuiltOutput Output) (w : Option Thrown) (db : Database)
      → IsValid db
      → Kept (after_write host texts input c b w db)
  unfolding after_write
  after_write-Kept c b (some e) db v = v
  after_write-Kept c b none db v =
      and_complete-Kept c b
        (checkpoint host.md5 host.columns c.job.job_id c.attempt.attempt_id b.output_watermark
          b.output_summary input.now db)
        (checkpoint-IsValid host.md5 host.columns c.job.job_id c.attempt.attempt_id
          b.output_watermark b.output_summary input.now db v)

  after_build-Kept :
      (c : ClaimedWorkerJob) (o : Outcome Thrown (BuiltOutput Output)) (db : Database)
      → IsValid db
      → Kept (after_build host texts input c o db)
  unfolding after_build
  after_build-Kept c (thrown e) db v = v
  after_build-Kept c (ok b) db v = after_write-Kept c b (input.write_output b.output) db v

  with_failure-Kept :
      (c : ClaimedWorkerJob) (p : Database × Outcome Thrown PersistedWorkerFailure)
      → Kept p
      → Kept (with_failure host texts input c p)
  unfolding with_failure
  with_failure-Kept c (db, thrown e) v = v
  with_failure-Kept c (db, ok f) v = v

  handle_failure-Kept :
      (c : ClaimedWorkerJob) (policy : Option WorkerFailurePolicyInput)
      (p : Database × Outcome Thrown (BoundedWorkerRunResult Output))
      → Kept p
      → Kept (handle_failure host texts input c policy p)
  unfolding handle_failure persist_worker_failure
  handle_failure-Kept c policy (db, ok r) v = v
  handle_failure-Kept c none (db, thrown e) v = v
  handle_failure-Kept c (some policy) (db, thrown e) v =
      let d = classify_worker_failure texts c e input.now policy in
      with_failure-Kept c (persist_worker_failure texts host.columns c e input.now policy db) (
        with_decision-Kept d (persist_decision host.columns c input.now d d.action db)
          (persist_decision-IsValid host.columns c input.now d d.action db v))

  after_claim-Kept :
      (p : Database × Outcome Thrown (Option ClaimedWorkerJob))
      → Kept p
      → Kept (after_claim host texts input p)
  unfolding after_claim
  after_claim-Kept (db, thrown e) v = v
  after_claim-Kept (db, ok none) v = v
  after_claim-Kept (db, ok (some c)) v =
      handle_failure-Kept c input.failure_policy
        (after_build host texts input c (input.build_output c) db)
        (after_build-Kept c (input.build_output c) db v)

  -- A run keeps the worker tables valid, whatever building and writing its output return or throw,
  -- with or without a failure policy.
  pub run_claimed_worker_job-IsValid :
      (db : Database) → IsValid db → IsValid (run_claimed_worker_job host texts input db).0
  unfolding run_claimed_worker_job
  run_claimed_worker_job-IsValid db v =
      after_claim-Kept (claim host.text_le (claim_input input) db)
        (claim-IsValid host.text_le (claim_input input) db v)
