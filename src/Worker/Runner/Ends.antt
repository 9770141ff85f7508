-- ===== src/Worker/Runner/Ends.antt =====
-- Every run of `runClaimedWorkerJob` that has a failure policy ends in a definite way.
use data_dyna.Base.{
  find?, ◌⊎◌, inl, inr, ap, ℕ, String, Option, none, some, Bool, false, string_eq, nat_eq, ◌≡◌, ◌<◌,
  arith, refl, Outcome, ok, thrown, any, All, List, [], ◌∷◌, beq_refl, sym, subst,
}
use data_dyna.Base.Table.{find?-update_where_hit, find?-append_new}
use data_dyna.Worker.Types.{
  WorkerFreshnessRecord, WorkerJobRecord, Thrown, ClaimedWorkerJob, ClaimWorkerJobInput,
  WorkerJobStatus, WorkerJobAttemptRecord,
}
use data_dyna.Worker.Tables.{
  WorkerJobRow, Database, is_job, is_attempt, to_worker_job_record, to_claimed_worker_job,
}
use data_dyna.Worker.Repository.Claim.{claim, claimed_row, started_attempt}
use data_dyna.Worker.Invariant.{IsValid}
use data_dyna.Worker.Invariant.Claim.{Stored, started, started_answer, endings, idle, starts}
use data_dyna.Worker.Settling.{IsOpen, checkpoint-IsOpen}
use data_dyna.Worker.Completing.{CompleteEnds, complete_ends}
use data_dyna.Worker.Policy.Persist.{classify_worker_failure}
use data_dyna.Worker.History.{Host}
use data_dyna.Worker.Policy.{Texts, WorkerFailurePolicyInput}
use data_dyna.Worker.Runner.{
  BuiltOutput, BoundedWorkerRunResult, RunClaimedWorkerJobInput, claim_input, completed_with,
  and_complete, after_write, after_build, with_failure, handle_failure, after_claim,
  run_claimed_worker_job,
}
use data_dyna.Worker.Runner.Runs.{
  Unstorable, Ended, failed_status, IsHeld, persist_worker_failure_ends,
}

-- What a result says of the tables: without a claim they stay as they are, and a claimed job has
-- ended as the result says.
abbrev pub EndsAs : {Output : Type 0} → BoundedWorkerRunResult Output → Database → Database → Type 0
EndsAs BoundedWorkerRunResult.idle before after = after ≡ before
EndsAs (BoundedWorkerRunResult.completed run) before after =
    Ended after run.claimed.job.job_id WorkerJobStatus.succeeded
EndsAs (BoundedWorkerRunResult.failed c failure) before after =
    Ended after c.job.job_id (failed_status failure.decision.action)

-- The job is running, and the worker holds it.
abbrev pub StillRuns : Database → (job_id worker_id : String) → Type 0
StillRuns db job_id worker_id =
    (j : WorkerJobRow) × (find? (is_job job_id) db.jobs ≡ some j)
    × (j.status ≡ WorkerJobStatus.running)
    × (j.locked_by ≡ some worker_id)

fresh_attempt :
    (job_id : String) (next : ℕ) (attempts : List WorkerJobAttemptRecord)
    → All (λ a. a.attempt_id < next) attempts
    → any (is_attempt job_id next) attempts ≡ false
fresh_attempt job_id next [] h = refl
fresh_attempt job_id next (a ∷ rest) h = ground (arith, fresh_attempt job_id next rest h.1)

-- What a claim answers is held by the tables that it leaves.
started-IsHeld :
    (text_le : String → String → Bool) (input : ClaimWorkerJobInput) (db : Database)
    (j : WorkerJobRow)
    → IsValid db
    → Stored db.jobs j
    → IsHeld
        (started text_le input db j)
        (started_answer text_le input db j)
        (claimed_row input j)
        (started_attempt input db.next_attempt_id (claimed_row input j))
unfolding claimed_row started_attempt to_claimed_worker_job to_worker_job_record
started-IsHeld text_le input db j v stored = record {
  opened = record {
    job =
        find?-update_where_hit (is_job j.job_id) (is_job j.job_id) (claimed_row input) db.jobs j
          (λ r. refl) (λ r h. h) stored;
    attempt =
        find?-append_new (is_attempt j.job_id db.next_attempt_id) db.attempts _
          (fresh_attempt j.job_id db.next_attempt_id db.attempts v.serial)
          (ground (arith, beq_refl j.job_id, beq_refl db.next_attempt_id));
  };
  counted = refl;
  limited = refl;
  attempted = omega arith;
}

claimed-StillRuns :
    (text_le : String → String → Bool) (input : ClaimWorkerJobInput) (db : Database)
    (j : WorkerJobRow)
    → ((claimed_row input j).status ≡ WorkerJobStatus.running)
      × ((claimed_row input j).locked_by ≡ some input.worker_id)
unfolding claimed_row
claimed-StillRuns text_le input db j = (refl, refl)

module _ {Output : Type 0} (host : Host) (texts : Texts) (input : RunClaimedWorkerJobInput Output)
    (policy : WorkerFailurePolicyInput) (before : Database) where
  -- A run ends as its result says, or throws what a column says of the failure's diagnostic. Then
  -- the job that it has claimed still runs.
  abbrev pub Settles : Database × Outcome Thrown (BoundedWorkerRunResult Output) → Type 0
  Settles (after, o) =
      ((r : BoundedWorkerRunResult Output) × (o ≡ ok r) × EndsAs r before after)
      ⊎ ((e : Thrown) × (c : ClaimedWorkerJob) × (error : Thrown) × (o ≡ thrown e)
          × ((claim host.text_le (claim_input input) before).1 ≡ ok (some c))
          × Unstorable host.columns (classify_worker_failure texts c error input.now policy) e
          × StillRuns after c.job.job_id input.worker_id)

  module _ (c : ClaimedWorkerJob) (j : WorkerJobRow)
      (answered : (claim host.text_le (claim_input input) before).1 ≡ ok (some c))
      (runs : (j.status ≡ WorkerJobStatus.running) × (j.locked_by ≡ some input.worker_id)) where
    failure-Settles :
        (db : Database) (a : WorkerJobAttemptRecord)
        → IsHeld db c j a
        → (e : Thrown) → Settles (handle_failure host texts input c (some policy) (db, thrown e))
    unfolding handle_failure with_failure
    failure-Settles db a held e =
        elim (persist_worker_failure_ends host.columns db c j a held input.now texts e policy) [
          | inl (f, ok_f, ended) ↦ rw (ok_f, with_failure) (inl (_, refl, ended))
          | inr (x, k, refused) ↦
              subst (λ p. Settles (with_failure host texts input c p)) (sym k)
                (inr (x, c, e, refl, answered, refused, (j, held.opened.job, runs.0, runs.1)))
        ]

    reopened :
        (db after : Database) (a b : WorkerJobAttemptRecord)
        → IsHeld db c j a
        → IsOpen after c.job.job_id c.attempt.attempt_id j b
        → IsHeld after c j b
    reopened db after a b held still = record {
      opened = still;
      counted = held.counted;
      limited = held.limited;
      attempted = held.attempted;
    }

    complete-Settles :
        (built : BuiltOutput Output) (freshness : WorkerFreshnessRecord) (db : Database)
        (a : WorkerJobAttemptRecord)
        → IsHeld db c j a
        → (r : Database × Outcome Thrown WorkerJobRecord)
        → CompleteEnds c.job.job_id c.attempt.attempt_id j host.columns built.output_watermark
            built.output_summary input.now r
        → Settles (
            handle_failure host texts input c
              (some policy)
              (completed_with host texts input c built freshness r))
    unfolding completed_with handle_failure
    complete-Settles built freshness db a held (after, ok job) (inl (job', e, shown, done)) =
        inl (_, refl, (done.row, done.found, done.status, done.released))
    complete-Settles built freshness db a held (after, ok job) (inr (x, e, refused, still)) = cc
    complete-Settles built freshness db a held (after, thrown x) (inl (job', e, shown, done)) = cc
    complete-Settles built freshness db a held (after, thrown x)
          (inr (x', e, refused, (b, still))) =
        failure-Settles after b (reopened db after a b held still) x

    checkpoint-Settles :
        (built : BuiltOutput Output) (db : Database) (a : WorkerJobAttemptRecord)
        → IsHeld db c j a
        → (r : Database × Outcome Thrown WorkerFreshnessRecord)
        → ((row : WorkerFreshnessRecord) × (r.1 ≡ ok row)
            × ((b : WorkerJobAttemptRecord) × IsOpen r.0 c.job.job_id c.attempt.attempt_id j b))
          ⊎ ((e : Thrown) × (r ≡ (db, thrown e)))
        → Settles (
            handle_failure host texts input c
              (some policy)
              (and_complete host texts input c built r))
    unfolding and_complete
    checkpoint-Settles built db a held (after, ok row) (inl (row', e, (b, still))) =
        complete-Settles built row after b (reopened db after a b held still) _ (
          complete_ends c.job.job_id c.attempt.attempt_id j host.columns built.output_watermark
            built.output_summary input.now host.md5 after b still)
    checkpoint-Settles built db a held (after, thrown x) (inl (row', e, rest)) = cc
    checkpoint-Settles built db a held (after, ok row) (inr (x, k)) = cc (ap (λ r. r.1) k)
    checkpoint-Settles built db a held (after, thrown x) (inr (x', k)) =
        subst (λ t. Settles (handle_failure host texts input c (some policy) (t, thrown x)))
          (ap (λ r. r.0) (sym k)) (failure-Settles db a held x)

    module _ (db : Database) (a : WorkerJobAttemptRecord) (held : IsHeld db c j a) where
      after_write-Settles :
          (built : BuiltOutput Output) (w : Option Thrown)
          → Settles (
              handle_failure host texts input c
                (some policy)
                (after_write host texts input c built w db))
      unfolding after_write
      after_write-Settles built (some e) = failure-Settles db a held e
      after_write-Settles built none =
          checkpoint-Settles built db a held _
            (elim (checkpoint-IsOpen db c.job.job_id c.attempt.attempt_id j a held.opened
              host.columns host.md5 built.output_watermark built.output_summary input.now) [
                | inl returned ↦ inl returned
                | inr (e, k, refused) ↦ inr (e, k)
              ])

      after_build-Settles :
          (o : Outcome Thrown (BuiltOutput Output))
          → Settles (
              handle_failure host texts input c (some policy) (after_build host texts input c o db))
      unfolding after_build
      after_build-Settles (thrown e) = failure-Settles db a held e
      after_build-Settles (ok built) = after_write-Settles built (input.write_output built.output)

-- On valid tables and a database that answers every query, a run that has a failure policy ends in
-- one of three ways, whatever building and writing the output return or throw and whatever the
-- jsonb columns refuse. It is idle and changes nothing; or its claimed job has succeeded, is
-- scheduled for a retry or is dead-lettered, as the result says, and no worker holds it; or it
-- throws the error with which a column refuses the diagnostic of a failure, and the job that it
-- has claimed still runs, held by the worker.
pub run_claimed_worker_job_ends :
    {Output : Type 0} (host : Host) (texts : Texts) (input : RunClaimedWorkerJobInput Output)
    (policy : WorkerFailurePolicyInput) (db : Database)
    → IsValid db
    → input.failure_policy ≡ some policy
    → Settles host texts input policy db (run_claimed_worker_job host texts input db)
unfolding run_claimed_worker_job after_claim
run_claimed_worker_job_ends host texts input policy db v policy_given =
    elim (endings host.text_le (claim_input input) db v) [
      | idle _ e ↦ from_claim e (inl (_, refl, refl))
      | starts j _ _ stored _ e ↦
          let claimed = started_answer host.text_le (claim_input input) db j in
          from_claim e (
            rw policy_given (
              after_build-Settles host texts input policy db claimed _ (ap (λ r. r.1) e)
                (claimed-StillRuns host.text_le (claim_input input) db j) _ _
                (started-IsHeld host.text_le (claim_input input) db j v stored)
                (input.build_output claimed)))
    ]
  where
    from_claim :
        {x : Database × Outcome Thrown (Option ClaimedWorkerJob)}
        → claim host.text_le (claim_input input) db ≡ x
        → Settles host texts input policy db (after_claim host texts input x)
        → Settles host texts input policy db
            (after_claim host texts input (claim host.text_le (claim_input input) db))
    from_claim e t =
        subst (λ x. Settles host texts input policy db (after_claim host texts input x)) (sym e) t
