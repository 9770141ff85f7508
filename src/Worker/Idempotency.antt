-- ===== src/Worker/Idempotency.antt =====
-- Enqueueing one job twice, in durable-worker-job-repository.ts.
use Prim.Native.String.{◌++◌ as string_append}
use data_dyna.Base.{
  String, none, some, List, [], ◌∷◌, ◌++◌, Bool, true, false, ◌==◌, string_eq, nat_eq, ◌≡◌, ◌≢◌,
  refl, sym, ap, ◌∙◌, subst, any, find?, arith, ok, thrown, coalesce, beq_refl, inl, inr,
  Bool-cases, ◌||◌,
}
use data_dyna.Base.Table.{any-append}
use data_dyna.Worker.Types.{EnqueueWorkerJobInput, violation, kind_eq}
use data_dyna.Worker.Tables.{WorkerJobRow, Database, is_job, to_worker_job_record}
use data_dyna.Worker.Repository.Enqueue.{
  JobIdentity, identity_of, Enqueued, queued_row, stable_worker_job_id, same_index_key, insert_job,
  enqueue,
}
use data_dyna.Worker.Invariant.Enqueue.{endings, refused, present, clashing, inserted}

find?_appended :
    (id : String) (jobs : List WorkerJobRow) (row : WorkerJobRow)
    → find? (is_job id) jobs ≡ none
    → row.job_id ≡ id
    → find? (is_job id) (jobs ++ row ∷ []) ≡ some row
find?_appended id [] row h e = rw (← e) (rw (beq_refl row.job_id))
find?_appended id (j ∷ js) row h e = elim (Bool-cases (j.job_id == id)) [
  | inl hit ↦ cc (rw hit at h)
  | inr miss ↦ rw miss (find?_appended id js row (rw miss at h) e)
]

insert_found :
    (row j : WorkerJobRow) (db : Database)
    → row.max_attempts ≢ 0
    → find? (is_job row.job_id) db.jobs ≡ some j
    → insert_job row db ≡ (db, ok (record { job = to_worker_job_record j; duplicate = true }))
unfolding insert_job
insert_found row j db positive found =
    let no_zero : (row.max_attempts == 0) ≡ false = ground arith in rw (no_zero, insert_job, found)

-- The job that an insertion answers with is in the table.
insert_answers :
    (row : WorkerJobRow) (db t : Database) (a : Enqueued)
    → insert_job row db ≡ (t, ok a)
    → (j : WorkerJobRow) × (find? (is_job row.job_id) t.jobs ≡ some j)
      × (a.job ≡ to_worker_job_record j)
insert_answers row db t a h = elim (endings row db) [
  | refused _ e ↦ absurd (cc (ap (λ p. p.1) (sym h ∙ e)))
  | present j _ found e ↦
      let same : db ≡ t = ap (λ p. p.0) (sym e ∙ h) in
      (
        j,
        subst (λ u. find? (is_job row.job_id) u.jobs ≡ some j) same found,
        cc (ap (λ p. p.1) (sym h ∙ e)),
      )
  | clashing _ _ _ e ↦ absurd (cc (ap (λ p. p.1) (sym h ∙ e)))
  | inserted _ absent _ e ↦
      let same : record db { jobs = db.jobs ++ row ∷ [] } ≡ t = ap (λ p. p.0) (sym e ∙ h) in
      (
        row,
        subst (λ u. find? (is_job row.job_id) u.jobs ≡ some row) same
            (find?_appended row.job_id db.jobs row absent refl),
        cc (ap (λ p. p.1) (sym h ∙ e)),
      )
]

insert_stores :
    (row : WorkerJobRow) (db t : Database) (a : Enqueued)
    → insert_job row db ≡ (t, ok a)
    → a.duplicate ≡ false
    → t.jobs ≡ db.jobs ++ row ∷ []
insert_stores row db t a h new = elim (endings row db) [
  | refused _ e ↦ absurd (cc (ap (λ p. p.1) (sym h ∙ e)))
  | present j _ found e ↦ absurd (cc (ap (λ p. p.1) (sym h ∙ e)))
  | clashing _ _ _ e ↦ absurd (cc (ap (λ p. p.1) (sym h ∙ e)))
  | inserted _ absent _ e ↦ ap (λ p. p.0.jobs) (sym h ∙ e)
]

insert_clash :
    (row : WorkerJobRow) (db : Database)
    → row.max_attempts ≢ 0
    → find? (is_job row.job_id) db.jobs ≡ none
    → any (same_index_key row) db.jobs ≡ true
    → insert_job row db ≡ (db, thrown (violation "worker_jobs_idempotency_identity_unique_idx"))
unfolding insert_job
insert_clash row db positive absent clash =
    let no_zero : (row.max_attempts == 0) ≡ false = ground arith in
    rw (no_zero, insert_job, absent, clash)

or_true_right : (b : Bool) → b || (true || false) ≡ true
or_true_right true = refl
or_true_right false = refl

module _ (hash_stable_json : JobIdentity → String) where
  -- Enqueueing again a job that has been enqueued, with a positive maximum of attempts and the
  -- same identity, kind and scopes, answers with that job as a duplicate and changes nothing.
  pub enqueue_again :
      (input later : EnqueueWorkerJobInput) (db t : Database) (a : Enqueued)
      → enqueue hash_stable_json input db ≡ (t, ok a)
      → identity_of later ≡ identity_of input
      → coalesce later.max_attempts 3 ≢ 0
      → enqueue hash_stable_json later t ≡ (t, ok (record { job = a.job; duplicate = true }))
  unfolding enqueue stable_worker_job_id queued_row
  enqueue_again input later db t a h same positive =
      let (j, found, answer) =
        insert_answers (queued_row (stable_worker_job_id hash_stable_json input) input) db t a h in
      let there = subst (λ i. find? (is_job (stable_id i)) t.jobs ≡ some j) (sym same) found in
      rw answer (
        insert_found (queued_row (stable_worker_job_id hash_stable_json later) later) j t positive
          there)
    where
      stable_id : JobIdentity → String
      stable_id i = string_append "worker_job:" (hash_stable_json i)

  -- After an enqueue that stored a job, a second input that the unique index does not tell apart,
  -- but whose job id is not in the table, is not treated as a duplicate: with a positive maximum
  -- of attempts the enqueue throws the violation of the index and changes nothing.
  pub enqueue_clash :
      (input later : EnqueueWorkerJobInput) (db t : Database) (a : Enqueued)
      → enqueue hash_stable_json input db ≡ (t, ok a)
      → a.duplicate ≡ false
      → same_index_key
          (queued_row (stable_worker_job_id hash_stable_json later) later)
          (queued_row (stable_worker_job_id hash_stable_json input) input)
        ≡ true
      → coalesce later.max_attempts 3 ≢ 0
      → find? (is_job (stable_worker_job_id hash_stable_json later)) t.jobs ≡ none
      → enqueue hash_stable_json later t
        ≡ (t, thrown (violation "worker_jobs_idempotency_identity_unique_idx"))
  unfolding enqueue queued_row
  enqueue_clash input later db t a h new clash positive absent =
      let row = queued_row (stable_worker_job_id hash_stable_json input) input in
      let next = queued_row (stable_worker_job_id hash_stable_json later) later in
      let stored = insert_stores row db t a h new in
      insert_clash next t positive absent (
        ap (any (same_index_key next)) stored
        ∙ any-append (same_index_key next) db.jobs (row ∷ [])
        ∙ rw clash (or_true_right (any (same_index_key next) db.jobs)))
