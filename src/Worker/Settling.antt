-- ===== src/Worker/Settling.antt =====
-- A job and its attempt, both in the tables of durable-worker-job-repository.ts: how the methods that
-- end the attempt end.
use data_dyna.Base.{
  ◌⊎◌, inl, inr, ◌∙◌, thrown, ℕ, String, some, true, false, ◌==◌, string_eq, nat_eq, ◌≡◌, ◌<◌, refl,
  ap, find?, ok, arith, update_where, ltb,
}
use data_dyna.Base.Table.{find?-update_where_hit, find?_and}
use data_dyna.Contract.{Fields}
use data_dyna.Worker.Types.{
  Thrown, WorkerJobAttemptRecord, WorkerWatermark, WorkerFailureClass, WorkerFreshnessRecord,
}
use data_dyna.Worker.Tables.{
  Query, WorkerJobRow, Database, is_job, is_attempt, to_worker_job_record,
}
use data_dyna.Worker.Repository.Columns.{
  JsonColumns, stringify_jsonb, to_jsonb, to_jsonb-unwritten, to_jsonb-refused, given, given_cases,
}
use data_dyna.Worker.Repository.Progress.{
  checkpoint_stored, mark_stored, succeeded_attempt, checkpointed_attempt, checkpoint,
  succeeded_row, mark_succeeded,
}
use data_dyna.Worker.Repository.Failure.{
  retry_stored, dead_letter_stored, may_retry, retried_row, dead_row,
}

pub record IsOpen (db : Database) (job_id : String) (attempt_id : ℕ) (j : WorkerJobRow)
    (a : WorkerJobAttemptRecord) : Type 0 where
  pub job : find? (is_job job_id) db.jobs ≡ some j
  pub attempt : find? (is_attempt job_id attempt_id) db.attempts ≡ some a

module _ (db : Database) (job_id : String) (attempt_id : ℕ) (j : WorkerJobRow)
    (a : WorkerJobAttemptRecord) (o : IsOpen db job_id attempt_id j a) where
  job_hit :
      (f : WorkerJobRow → WorkerJobRow)
      → ((r : WorkerJobRow) → (f r).job_id ≡ r.job_id)
      → find? (is_job job_id) (update_where (is_job job_id) f db.jobs) ≡ some (f j)
  job_hit f same =
      find?-update_where_hit (is_job job_id) (is_job job_id) f db.jobs j
        (λ r. ap (λ id. id == job_id) (same r)) (λ r h. h) o.job

  attempt_hit :
      (f : WorkerJobAttemptRecord → WorkerJobAttemptRecord)
      → ((r : WorkerJobAttemptRecord)
          → is_attempt job_id attempt_id (f r) ≡ is_attempt job_id attempt_id r)
      → find?
          (is_attempt job_id attempt_id)
          (update_where (is_attempt job_id attempt_id) f db.attempts)
        ≡ some (f a)
  attempt_hit f same =
      find?-update_where_hit (is_attempt job_id attempt_id) (is_attempt job_id attempt_id) f
        db.attempts a same (λ r h. h) o.attempt

  checkpoint_stored-IsOpen :
      (md5 : String → String) (w summary : Fields) (now : ℕ)
      → let t = (checkpoint_stored md5 job_id attempt_id now w summary db).0 in
        ((row : WorkerFreshnessRecord) × ((checkpoint_stored md5 job_id attempt_id now w summary
              db).1
            ≡ ok row))
        × IsOpen t job_id attempt_id j (checkpointed_attempt w now a)
  unfolding checkpoint_stored checkpointed_attempt
  checkpoint_stored-IsOpen md5 w summary now =
      rw (o.job, checkpoint_stored, o.attempt)
        (
          (_, refl),
          record { job = o.job; attempt = attempt_hit (checkpointed_attempt w now) (λ r. refl) },
        )

  mark_stored-IsOpen :
      (now : ℕ) (w : WorkerWatermark)
      → ((mark_stored job_id attempt_id now w db).1
          ≡ ok (to_worker_job_record (succeeded_row now j)))
        × IsOpen
            (mark_stored job_id attempt_id now w db).0
            job_id
            attempt_id
            (succeeded_row now j)
            (succeeded_attempt w now a)
  unfolding mark_stored succeeded_row succeeded_attempt
  mark_stored-IsOpen now w =
      rw (o.job, mark_stored, o.attempt)
        (
          refl,
          record {
            job = job_hit (succeeded_row now) (λ r. refl);
            attempt = attempt_hit (succeeded_attempt w now) (λ r. refl);
          },
        )

  -- With an attempt left, a retry returns and leaves the job scheduled.
  pub retry_stored_open :
      (c : WorkerFailureClass) (at' : ℕ) (d : Fields) (now : ℕ) (stored : Fields)
      → j.attempt_count < j.max_attempts
      → ((retry_stored job_id attempt_id c at' d now stored db).1
          ≡ ok (to_worker_job_record (retried_row c at' d now j)))
        × (find? (is_job job_id) (retry_stored job_id attempt_id c at' d now stored db).0.jobs
            ≡ some (retried_row c at' d now j))
  unfolding retry_stored retried_row
  retry_stored_open c at' d now stored room =
      let passes : ltb j.attempt_count j.max_attempts ≡ true = ground arith in
      let found : find? (may_retry job_id) db.jobs ≡ some j =
        find?_and (is_job job_id) (λ r. ltb r.attempt_count r.max_attempts) db.jobs j o.job
          passes in
      rw (found, retry_stored, o.attempt) (refl, job_hit (retried_row c at' d now) (λ r. refl))

  -- A job that has been attempted can be dead-lettered.
  pub dead_letter_stored_open :
      (c : WorkerFailureClass) (reason action : String) (now : ℕ) (stored : Fields)
      → 0 < j.attempt_count
      → ((dead_letter_stored job_id attempt_id c reason action now stored db).1
          ≡ ok (to_worker_job_record (dead_row c reason now j)))
        × (find?
              (is_job job_id)
              (dead_letter_stored job_id attempt_id c reason action now stored db).0.jobs
            ≡ some (dead_row c reason now j))
  unfolding dead_letter_stored dead_row
  dead_letter_stored_open c reason action now stored attempted =
      let some_yet : (j.attempt_count == 0) ≡ false = ground arith in
      rw (o.job, dead_letter_stored, o.attempt, some_yet)
        (refl, job_hit (dead_row c reason now) (λ r. refl))

  module _ (columns : JsonColumns) where
    -- A checkpoint of an open attempt returns, and leaves the job as it is and the attempt open, or
    -- a column refuses one of its values and nothing changes.
    pub checkpoint-IsOpen :
        (md5 : String → String) (w : WorkerWatermark) (summary : Fields) (now : ℕ)
        → let r = checkpoint md5 columns job_id attempt_id w summary now db in
          ((row : WorkerFreshnessRecord) × (r.1 ≡ ok row)
            × ((b : WorkerJobAttemptRecord) × IsOpen r.0 job_id attempt_id j b))
          ⊎ ((e : Thrown) × (r ≡ (db, thrown e))
              × ((to_jsonb columns w "worker output watermark" ≡ thrown e)
                  ⊎ (to_jsonb columns summary "worker output summary" ≡ thrown e)))
    unfolding checkpoint
    checkpoint-IsOpen md5 w summary now =
        let store_both : String → String → Query WorkerFreshnessRecord = λ w_text s_text.
          given (columns.store w_text)
            λ w'. given (columns.store s_text) (checkpoint_stored md5 job_id attempt_id now w') in
        let write_summary : String → Query WorkerFreshnessRecord = λ w_text.
          given (stringify_jsonb columns summary "worker output summary") (store_both w_text) in
        elim (given_cases (stringify_jsonb columns w "worker output watermark") write_summary db) [
          | inr (e, h, k) ↦ inr (e, k, inl (to_jsonb-unwritten columns w _ e h))
          | inl (w_text, h1, k1) ↦
              elim (given_cases (stringify_jsonb columns summary "worker output summary")
                (store_both w_text) db) [
                  | inr (e, h, k) ↦ inr (e, k1 ∙ k, inr (to_jsonb-unwritten columns summary _ e h))
                  | inl (s_text, h2, k2) ↦
                      elim (given_cases (columns.store w_text)
                        (λ w'.
                          given (columns.store s_text)
                            (checkpoint_stored md5 job_id attempt_id now w'))
                        db) [
                          | inr (e, h, k) ↦
                              inr (e, k1 ∙ k2 ∙ k, inl (to_jsonb-refused columns w _ w_text e h1 h))
                          | inl (w', h3, k3) ↦
                              elim (given_cases (columns.store s_text)
                                (checkpoint_stored md5 job_id attempt_id now w') db) [
                                  | inr (e, h, k) ↦ inr (
                                    e,
                                    k1 ∙ k2 ∙ k3 ∙ k,
                                    inr (to_jsonb-refused columns summary _ s_text e h2 h),
                                  )
                                  | inl (s', h4, k4) ↦
                                      let ((row, e), still) =
                                        checkpoint_stored-IsOpen md5 w' s' now in
                                      rw (k1 ∙ k2 ∙ k3 ∙ k4) (inl (row, e, (_, still)))
                                ]
                        ]
                ]
        ]

    -- So does the second statement of `complete`.
    pub mark_succeeded-IsOpen :
        (w : WorkerWatermark) (now : ℕ)
        → let r = mark_succeeded columns job_id attempt_id w now db in
          ((r.1 ≡ ok (to_worker_job_record (succeeded_row now j)))
            × ((stored : Fields) × IsOpen r.0 job_id attempt_id
                  (succeeded_row now j)
                  (succeeded_attempt stored now a)))
          ⊎ ((e : Thrown) × (r ≡ (db, thrown e))
              × (to_jsonb columns w "worker final watermark" ≡ thrown e))
    unfolding mark_succeeded
    mark_succeeded-IsOpen w now =
        elim (given_cases (to_jsonb columns w "worker final watermark")
          (mark_stored job_id attempt_id now) db) [
            | inr (e, h, k) ↦ inr (e, k, h)
            | inl (stored, h, k) ↦
                let (e, kept) = mark_stored-IsOpen now stored in rw k (inl (e, (stored, kept)))
          ]
