-- ===== src/Worker/Invariant/Enqueue.antt =====
-- `enqueue` of durable-worker-job-repository.ts keeps the tables valid.
use data_dyna.Base.{
  ℕ, String, none, some, List, [], ◌∷◌, ◌++◌, Bool, true, false, ◌==◌, string_eq, nat_eq, ◌≡◌, ◌≢◌,
  any, All, arith, refl, ◌∙◌, sym, Bool-cases, Option-cases, inl, inr, find?, ok, thrown,
  All-append, eq_iff,
}
use data_dyna.Base.Table.{Distinct-append, All-mono, any-append, count_none}
use data_dyna.Worker.Types.{WorkerJobAttemptRecord, EnqueueWorkerJobInput, violation}
use data_dyna.Worker.Tables.{WorkerJobRow, Database, is_job, to_worker_job_record}
use data_dyna.Worker.Repository.Enqueue.{
  JobIdentity, queued_row, stable_worker_job_id, same_index_key, enqueue, insert_job,
}
use data_dyna.Worker.Invariant.{IsSound, of_job, Counted, Numbered, Owned, Valid, IsValid}

any_of_none : {A : Type 0} (p : A → Bool) (xs : List A) → find? p xs ≡ none → any p xs ≡ false
any_of_none p [] h = refl
any_of_none p (x ∷ xs) h = ground (arith, any_of_none p xs)

module _ (jobs : List WorkerJobRow) (row : WorkerJobRow) where
  not_of_job :
      (as' : List WorkerJobAttemptRecord)
      → any (is_job row.job_id) jobs ≡ false
      → All (Owned jobs) as'
      → any (of_job row.job_id) as' ≡ false
  not_of_job [] new own = refl
  not_of_job (a ∷ as') new own =
      ground (arith, eq_iff a.job_id row.job_id, not_of_job as' new own.1)

Numbered-none :
    (row : WorkerJobRow) (as' : List WorkerJobAttemptRecord)
    → any (of_job row.job_id) as' ≡ false
    → Numbered as' row
Numbered-none row [] h = tt
Numbered-none row (a ∷ as') h = (λ mine. ground arith, Numbered-none row as' (ground arith))

module _ {jobs : List WorkerJobRow} {attempts : List WorkerJobAttemptRecord} {next : ℕ}
    (v : Valid jobs attempts next) where
  -- A sound row that has no attempts yet.
  Valid-insert_job :
      (row : WorkerJobRow)
      → any (is_job row.job_id) jobs ≡ false
      → IsSound row
      → row.attempt_count ≡ 0
      → Valid (jobs ++ row ∷ []) attempts next
  Valid-insert_job row new sound zero_count =
      let none_yet = not_of_job jobs row attempts new v.owned in
      record {
        distinct = Distinct-append (λ j. j.job_id) jobs row new v.distinct;
        sound = All-append IsSound jobs (row ∷ []) v.sound (sound, tt);
        counted =
            All-append (Counted attempts) jobs (row ∷ []) v.counted
              (count_none (of_job row.job_id) attempts none_yet ∙ sym zero_count, tt);
        numbered =
            All-append (Numbered attempts) jobs (row ∷ []) v.numbered
              (Numbered-none row attempts none_yet, tt);
        owned =
            All-mono attempts
              (λ a own. any-append (is_job a.job_id) jobs (row ∷ []) ∙ ground (arith, own)) v.owned;
        distinct_attempts = v.distinct_attempts;
        serial = v.serial;
      }

-- The four ways in which the insertion of a row ends.
module _ (row : WorkerJobRow) (db : Database) where
  pub data Ending : Type 0 where
    refused :
        row.max_attempts ≡ 0
        → insert_job row db ≡ (db, thrown (violation "worker_jobs_max_attempts_check"))
        → Ending
    present :
        (j : WorkerJobRow)
        → row.max_attempts ≢ 0
        → find? (is_job row.job_id) db.jobs ≡ some j
        → insert_job row db ≡ (db, ok (record { job = to_worker_job_record j; duplicate = true }))
        → Ending
    clashing :
        row.max_attempts ≢ 0
        → find? (is_job row.job_id) db.jobs ≡ none
        → any (same_index_key row) db.jobs ≡ true
        → insert_job row db ≡ (db, thrown (violation "worker_jobs_idempotency_identity_unique_idx"))
        → Ending
    inserted :
        row.max_attempts ≢ 0
        → find? (is_job row.job_id) db.jobs ≡ none
        → any (same_index_key row) db.jobs ≡ false
        → insert_job row db ≡ (
          record db { jobs = db.jobs ++ row ∷ [] },
          ok (record { job = to_worker_job_record row; duplicate = false }),
        )
        → Ending

  pub endings : Ending
  unfolding insert_job
  endings = elim (Bool-cases (row.max_attempts == 0)) [
    | inl zero_max ↦ refused (ground arith) (rw zero_max)
    | inr positive ↦ elim (Option-cases (find? (is_job row.job_id) db.jobs)) [
      | inr (j, found) ↦ present j (ground arith) found (rw (positive, insert_job, found))
      | inl absent ↦ elim (Bool-cases (any (same_index_key row) db.jobs)) [
        | inl clash ↦
            clashing (ground arith) absent clash (rw (positive, insert_job, absent, clash))
        | inr free ↦ inserted (ground arith) absent free (rw (positive, insert_job, absent, free))
      ]
    ]
  ]

queued_row-IsSound :
    (id : String) (input : EnqueueWorkerJobInput)
    → (queued_row id input).max_attempts ≢ 0
    → IsSound (queued_row id input)
unfolding queued_row
queued_row-IsSound id input h = ground arith

module _ (hash_stable_json : JobIdentity → String) where
  -- Whatever `enqueue` returns or throws, the tables stay valid.
  pub enqueue-IsValid :
      (input : EnqueueWorkerJobInput) (db : Database)
      → IsValid db
      → IsValid (enqueue hash_stable_json input db).0
  unfolding enqueue
  enqueue-IsValid input db v =
      let row = queued_row (stable_worker_job_id hash_stable_json input) input in
      elim (endings row db) [
        | refused _ e ↦ rw e v
        | present _ _ _ e ↦ rw e v
        | clashing _ _ _ e ↦ rw e v
        | inserted positive absent _ e ↦ rw e (
            Valid-insert_job v row (any_of_none (is_job row.job_id) db.jobs absent)
              (queued_row-IsSound _ input positive) refl)
      ]
