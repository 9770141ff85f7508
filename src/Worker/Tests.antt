-- ===== src/Worker/Tests.antt =====
-- The theorems on the workers at concrete tables.
use data_dyna.Worker.Repository.Columns.{to_jsonb, stringify_jsonb, given}
use data_dyna.Base.{some, true, false, ◌≡◌, refl, arith, ok, thrown, find?, All, string_eq, nat_eq}
use data_dyna.Worker.Samples.{
  input_of, plain_host, any_order, claim_at, two_calls, two_queued, busy_calls, early_row,
  late_queued, other_brand_input, running_calls, early_running,
}
use data_dyna.Contract.{end}
use data_dyna.Worker.Types.{WorkerKind, violation, ClaimedWorkerJob}
use data_dyna.Worker.Tables.{WorkerJobRow, no_rows, is_job, to_worker_job_record}
use data_dyna.Worker.Repository.Enqueue.{queued_row, enqueue, stable_worker_job_id}
use data_dyna.Worker.Repository.Claim.{
  claim, claimed_row, started_attempt, runs_before, is_claimable,
}
use data_dyna.Worker.Repository.Progress.{complete, succeeded_row}
use data_dyna.Worker.Invariant.{IsValid}
use data_dyna.Worker.Invariant.Claim.{Stored, candidates, started, started_answer}
use data_dyna.Worker.History.{run, history-IsValid}
use data_dyna.Worker.Claiming.{Precedes, claim_takes_first, claim_finds, claim_leaves_running}
use data_dyna.Worker.Idempotency.{enqueue_again, enqueue_clash}
use data_dyna.Worker.Settling.{IsOpen}
use data_dyna.Worker.Completing.{CompleteEnds, complete_ends}

busy_statuses :
    find? (is_job "worker_job:late") (run plain_host busy_calls no_rows).jobs
    ≡ some (
        succeeded_row 60
          (claimed_row (claim_at 50) (queued_row "worker_job:late" (input_of "late" 20))))
unfolding claimed_row given queued_row run runs_before stringify_jsonb succeeded_row to_jsonb
busy_statuses = refl

history-IsValid_example : IsValid (run plain_host busy_calls no_rows)
history-IsValid_example = history-IsValid plain_host busy_calls

claim_takes_first_example :
    let c = started_answer plain_host.text_le (claim_at 30) two_queued early_row in
    (j : WorkerJobRow) × (is_claimable WorkerKind.projection 30 j ≡ true)
    × Stored two_queued.jobs j
    × All (Precedes plain_host.text_le j) (candidates plain_host.text_le (claim_at 30) two_queued)
    × (c ≡ started_answer plain_host.text_le (claim_at 30) two_queued j)
    × ((claim plain_host.text_le (claim_at 30) two_queued).0
        ≡ started plain_host.text_le (claim_at 30) two_queued j)
unfolding claim run runs_before
claim_takes_first_example =
    claim_takes_first plain_host.text_le any_order (claim_at 30) two_queued
      (started_answer plain_host.text_le (claim_at 30) two_queued early_row)
      (history-IsValid plain_host two_calls) refl

claim_finds_example :
    (c : ClaimedWorkerJob) × ((claim plain_host.text_le (claim_at 30) two_queued).1 ≡ ok (some c))
unfolding run queued_row
claim_finds_example =
    claim_finds plain_host.text_le (claim_at 30) two_queued "worker_job:early" early_row
      (history-IsValid plain_host two_calls) refl refl refl (omega arith)

enqueue_again_example :
    enqueue plain_host.hash_stable_json (input_of "early" 99) two_queued
    ≡ (two_queued, ok (record { job = to_worker_job_record early_row; duplicate = true }))
unfolding enqueue run queued_row
enqueue_again_example =
    enqueue_again plain_host.hash_stable_json (input_of "early" 10) (input_of "early" 99)
      late_queued two_queued (record { job = to_worker_job_record early_row; duplicate = false })
      refl refl (omega arith)

enqueue_clash_example :
    enqueue plain_host.hash_stable_json other_brand_input two_queued
    ≡ (two_queued, thrown (violation "worker_jobs_idempotency_identity_unique_idx"))
unfolding enqueue run queued_row stable_worker_job_id
enqueue_clash_example =
    enqueue_clash plain_host.hash_stable_json (input_of "early" 10) other_brand_input late_queued
      two_queued (record { job = to_worker_job_record early_row; duplicate = false }) refl refl refl
      (omega arith) refl

claim_leaves_running_example :
    find?
      (is_job "worker_job:early")
      (claim plain_host.text_le (claim_at 900000) early_running).0.jobs
    ≡ some (claimed_row (claim_at 30) early_row)
unfolding run queued_row claimed_row runs_before
claim_leaves_running_example =
    claim_leaves_running plain_host.text_le (claim_at 900000) early_running "worker_job:early"
      (claimed_row (claim_at 30) early_row) (history-IsValid plain_host running_calls) refl refl

early-IsOpen :
    IsOpen early_running "worker_job:early" 1
      (claimed_row (claim_at 30) early_row)
      (started_attempt (claim_at 30) 1 (claimed_row (claim_at 30) early_row))
unfolding run queued_row claimed_row started_attempt runs_before
early-IsOpen = record { job = refl; attempt = refl }

complete_ends_example :
    CompleteEnds "worker_job:early" 1
      (claimed_row (claim_at 30) early_row)
      plain_host.columns
      end
      end
      40
      (complete plain_host.md5 plain_host.columns "worker_job:early" 1 end end 40 early_running)
complete_ends_example =
    complete_ends "worker_job:early" 1 (claimed_row (claim_at 30) early_row) plain_host.columns end
      end 40 plain_host.md5 early_running
      (started_attempt (claim_at 30) 1 (claimed_row (claim_at 30) early_row)) early-IsOpen
