-- ===== src/Worker/Invariant/Frame.antt =====
-- Updates in place that leave keys and counters alone keep the tables valid, as soon as the rows of
-- the jobs stay sound.
use data_dyna.Base.{
  ℕ, List, Bool, ◌==◌, string_eq, nat_eq, ◌≡◌, count, All, update_where, ap, ◌∙◌, sym,
  All-update_where,
}
use data_dyna.Base.Table.{Distinct-update_where, any-update_where, count-update_where, All-mono}
use data_dyna.Worker.Types.{WorkerJobAttemptRecord}
use data_dyna.Worker.Tables.{WorkerJobRow, is_job}
use data_dyna.Worker.Invariant.{IsSound, of_job, Counted, Numbered, Owned, Valid}

pub record KeepsJob (f : WorkerJobRow → WorkerJobRow) : Type 0 where
  pub id : (j : WorkerJobRow) → (f j).job_id ≡ j.job_id
  pub attempts : (j : WorkerJobRow) → (f j).attempt_count ≡ j.attempt_count

pub record KeepsAttempt (g : WorkerJobAttemptRecord → WorkerJobAttemptRecord) : Type 0 where
  pub id : (a : WorkerJobAttemptRecord) → (g a).attempt_id ≡ a.attempt_id
  pub job : (a : WorkerJobAttemptRecord) → (g a).job_id ≡ a.job_id
  pub number : (a : WorkerJobAttemptRecord) → (g a).attempt_number ≡ a.attempt_number

module _ {jobs : List WorkerJobRow} {attempts : List WorkerJobAttemptRecord} {next : ℕ}
    (v : Valid jobs attempts next) where
  pub Valid-update_jobs :
      (p : WorkerJobRow → Bool) (f : WorkerJobRow → WorkerJobRow)
      → KeepsJob f
      → All IsSound (update_where p f jobs)
      → Valid (update_where p f jobs) attempts next
  Valid-update_jobs p f k sound = record {
    distinct = Distinct-update_where (λ j. j.job_id) p f jobs k.id v.distinct;
    sound = sound;
    counted =
        All-update_where (Counted attempts) p f jobs
          (λ j _ h. ap (λ id. count (of_job id) attempts) (k.id j) ∙ h ∙ sym (k.attempts j))
          v.counted;
    numbered =
        All-update_where (Numbered attempts) p f jobs
          (λ j _ h.
            All-mono attempts (λ a below mine. rw (k.attempts j) (below (rw (k.id j) at mine))) h)
          v.numbered;
    owned =
        All-mono attempts
          (λ a own.
            any-update_where (is_job a.job_id) p f (λ j. ap (λ id. id == a.job_id) (k.id j)) jobs
            ∙ own)
          v.owned;
    distinct_attempts = v.distinct_attempts;
    serial = v.serial;
  }

  pub Valid-update_attempts :
      (q : WorkerJobAttemptRecord → Bool) (g : WorkerJobAttemptRecord → WorkerJobAttemptRecord)
      → KeepsAttempt g
      → Valid jobs (update_where q g attempts) next
  Valid-update_attempts q g k = record {
    distinct = v.distinct;
    sound = v.sound;
    counted =
        All-mono jobs
          (λ j h.
            count-update_where (of_job j.job_id) q g (λ a. ap (λ id. id == j.job_id) (k.job a))
              attempts
            ∙ h)
          v.counted;
    numbered =
        All-mono jobs
          (λ j h.
            All-update_where _ q g attempts
              (λ a _ below mine. rw (k.number a) (below (rw (k.job a) at mine))) h)
          v.numbered;
    owned = All-update_where (Owned jobs) q g attempts (λ a _ own. rw (k.job a) own) v.owned;
    distinct_attempts =
        Distinct-update_where (λ a. a.attempt_id) q g attempts k.id v.distinct_attempts;
    serial = All-update_where _ q g attempts (λ a _ below. rw (k.id a) below) v.serial;
  }
