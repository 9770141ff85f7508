-- ===== src/Worker/RunnerTests.antt =====
-- The theorems on the failure policy and on the runner at concrete tables.
use data_dyna.Base.{
  ◌⊎◌, thrown, ℕ, suc, zero, ◌==◌, string_eq, ◌+◌, ◌*◌, String, none, some, ◌≡◌, ◌≤◌, refl, arith,
  ok,
}
use Prim.Native.String.{◌∷◌ as char_then, [] as no_text, count as characters}
use text.Mathlib.TextLemmas.{length-cons, length-append}
use data_dyna.Contract.{Fields, end, field, str, obj}
use data_dyna.Worker.Types.{Thrown, WorkerKind, plain_error, violation, ClaimedWorkerJob}
use data_dyna.Worker.Tables.{to_claimed_worker_job, to_worker_job_record}
use data_dyna.Worker.Repository.Enqueue.{queued_row}
use data_dyna.Worker.Repository.Claim.{claimed_row, started_attempt, runs_before}
use data_dyna.Worker.Invariant.{IsValid}
use data_dyna.Worker.History.{run, history-IsValid}
use data_dyna.Worker.Policy.{
  Texts, WorkerFailurePolicyInput, PersistedWorkerFailure, max_seconds, retry_backoff_at,
  sanitize_diagnostic,
}
use data_dyna.Worker.Policy.Persist.{persist_worker_failure, classify_worker_failure}
use data_dyna.Worker.Policy.Backoff.{retry_backoff_bounds, retry_backoff_mono}
use data_dyna.Worker.Policy.Diagnostics.{TextsLaws, IsSafe, sanitize_diagnostic-IsSafe}
use data_dyna.Worker.Runner.{RunClaimedWorkerJobInput, run_claimed_worker_job}
use data_dyna.Worker.Runner.Runs.{
  Unstorable, Ended, failed_status, IsHeld, persist_worker_failure_ends,
}
use data_dyna.Worker.Runner.Ends.{Settles, run_claimed_worker_job_ends}
use data_dyna.Worker.Runner.Tables.{run_claimed_worker_job-IsValid}
use data_dyna.Worker.Samples.{
  refusing_host, plain_host, two_calls, two_queued, early_running, early_row, claim_at,
}

-- The first characters of a text.
first : ℕ → String → String
first zero s = no_text
first (suc n) no_text = no_text
first (suc n) (char_then c s) = char_then c (first n s)

first_bounded : (n : ℕ) (s : String) → characters (first n s) ≤ n
unfolding first
first_bounded zero s = omega arith
first_bounded (suc n) no_text = omega arith
first_bounded (suc n) (char_then c s) = omega (arith, first_bounded n s, length-cons c (first n s))

-- A `Texts` that redacts nothing and forbids the key "token".
abbrev plain_texts : Texts
plain_texts = record {
  length = characters;
  prefix = first;
  to_lower_case = λ s. s;
  includes = λ s part. s == part;
  replace = λ pattern s. s;
}

plain_texts_laws : TextsLaws plain_texts
plain_texts_laws = record {
  length-prefix = first_bounded;
  length-append = length-append;
  length-dots = refl;
  length-depth = refl;
}

abbrev policy : WorkerFailurePolicyInput
policy = record {
  retry_base_delay_seconds = some 10;
  retry_max_delay_seconds = some 60;
  next_operator_action = none;
}

-- A run whose output cannot be written.
abbrev failing : RunClaimedWorkerJobInput ℕ
failing = record {
  worker_kind = WorkerKind.projection;
  worker_id = "w1";
  lease_seconds = none;
  now = 30;
  build_output = λ c. ok (record { output = 7; output_watermark = end; output_summary = end });
  write_output = λ n. some (plain_error "Error" "disk full");
  failure_policy = some policy;
}

abbrev early_claimed : ClaimedWorkerJob
early_claimed =
    to_claimed_worker_job (claimed_row (claim_at 30) early_row)
      (started_attempt (claim_at 30) 1 (claimed_row (claim_at 30) early_row))

abbrev tired : ClaimedWorkerJob
tired = record early_claimed { job = record early_claimed.job { attempt_count = 4 } }

early-IsHeld :
    IsHeld early_running early_claimed
      (claimed_row (claim_at 30) early_row)
      (started_attempt (claim_at 30) 1 (claimed_row (claim_at 30) early_row))
unfolding run queued_row claimed_row started_attempt runs_before to_worker_job_record
early-IsHeld = record {
  opened = record { job = refl; attempt = refl };
  counted = refl;
  limited = refl;
  attempted = omega arith;
}

run_claimed_worker_job_ends_example :
    Settles refusing_host plain_texts failing policy two_queued
      (run_claimed_worker_job refusing_host plain_texts failing two_queued)
run_claimed_worker_job_ends_example =
    run_claimed_worker_job_ends refusing_host plain_texts failing policy two_queued
      (history-IsValid plain_host two_calls) refl

run_claimed_worker_job-IsValid_example :
    IsValid (run_claimed_worker_job plain_host plain_texts failing two_queued).0
run_claimed_worker_job-IsValid_example =
    run_claimed_worker_job-IsValid plain_host plain_texts failing two_queued
      (history-IsValid plain_host two_calls)

persist_worker_failure_ends_example :
    let persisted =
      persist_worker_failure plain_texts plain_host.columns early_claimed
        (violation "c")
        35
        policy
        early_running in
    ((f : PersistedWorkerFailure) × (persisted.1 ≡ ok f)
      × Ended persisted.0 early_claimed.job.job_id (failed_status f.decision.action))
    ⊎ ((e : Thrown) × (persisted ≡ (early_running, thrown e))
        × Unstorable plain_host.columns
            (classify_worker_failure plain_texts early_claimed (violation "c") 35 policy)
            e)
persist_worker_failure_ends_example =
    persist_worker_failure_ends plain_host.columns early_running early_claimed
      (claimed_row (claim_at 30) early_row)
      (started_attempt (claim_at 30) 1 (claimed_row (claim_at 30) early_row)) early-IsHeld 35
      plain_texts (violation "c") policy

retry_backoff_bounds_example :
    (35 + 1000 ≤ retry_backoff_at early_claimed 35 policy)
    × (retry_backoff_at early_claimed 35 policy ≤ 35 + max_seconds policy * 1000)
retry_backoff_bounds_example = retry_backoff_bounds early_claimed 35 policy

retry_backoff_mono_example :
    retry_backoff_at early_claimed 35 policy ≤ retry_backoff_at tired 35 policy
unfolding to_worker_job_record claimed_row queued_row to_claimed_worker_job
retry_backoff_mono_example = retry_backoff_mono early_claimed tired 35 policy (omega arith)

abbrev diagnostic : Fields
diagnostic = field "token" (str "abc") (field "nested" (obj (field "step" (str "write") end)) end)

sanitize_diagnostic-IsSafe_example :
    IsSafe plain_texts 0 (sanitize_diagnostic plain_texts (obj diagnostic) 0)
sanitize_diagnostic-IsSafe_example =
    sanitize_diagnostic-IsSafe plain_texts plain_texts_laws diagnostic
