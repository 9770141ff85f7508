-- ===== src/Worker/Invariant/Claim.antt =====
-- `claim` of durable-worker-job-repository.ts keeps the tables valid and violates no constraint.
use data_dyna.Base.{
  ℕ, suc, ◌+◌, String, Option, none, some, List, [], ◌∷◌, ◌++◌, Bool, true, false, ◌==◌, string_eq,
  nat_eq, ◌≡◌, ◌⊎◌, ◌≤◌, ◌<◌, any, count, All, arith, refl, ap, ◌∙◌, subst, Bool-cases,
  Option-cases, inl, inr, if◌then◌else◌, find?, All-append, eq_iff, select, All-update_split,
  update_where, ok, beq_refl,
}
use data_dyna.Base.Table.{
  Distinct, Distinct-append, Distinct-update_where, All-mono, count-append, All-find?,
  All-update_found, has_key, key_ne, any_of_find?, any-update_where, All-zip,
}
use data_dyna.Worker.Types.{WorkerJobAttemptRecord, ClaimWorkerJobInput, ClaimedWorkerJob}
use data_dyna.Worker.Tables.{WorkerJobRow, Database, is_job, to_claimed_worker_job}
use data_dyna.Worker.Repository.Claim.{
  is_claimable, claimed_row, started_attempt, same_attempt, runs_before, earlier, first_in_order,
  claim,
}
use data_dyna.Worker.Invariant.{IsSound, of_job, Counted, Numbered, Owned, Valid, IsValid}

-- The row with a given id, if the ids are distinct.
abbrev pub Stored : List WorkerJobRow → WorkerJobRow → Type 0
Stored jobs j = find? (is_job j.job_id) jobs ≡ some j

Stored-head : (y j : WorkerJobRow) (ys : List WorkerJobRow) → y ≡ j → Stored (y ∷ ys) j
Stored-head y j ys e = rw (← e) (rw (beq_refl y.job_id))

Stored-tail :
    (y j : WorkerJobRow) (ys : List WorkerJobRow)
    → Distinct (λ r. r.job_id) (y ∷ ys)
    → Stored ys j
    → Stored (y ∷ ys) j
Stored-tail y j ys d h =
    let other = key_ne (λ r. r.job_id) y ys j d.0 (any_of_find? (λ r. r.job_id) _ ys j h) in
    rw other h

module _ (text_le : String → String → Bool) (p : WorkerJobRow → Bool) where
  earlier_cases :
      (a j : WorkerJobRow) (o : Option WorkerJobRow)
      → earlier text_le a o ≡ some j
      → (a ≡ j) ⊎ (o ≡ some j)
  earlier_cases a j none h = inl cc
  earlier_cases a j (some b) h = elim (Bool-cases (runs_before text_le a b)) [
    | inl e ↦ inl (ground arith)
    | inr e ↦ inr (ground arith)
  ]

  -- The row that is selected passes the test and is in the table.
  pub first_in_order-Stored :
      (jobs : List WorkerJobRow) (j : WorkerJobRow)
      → Distinct (λ r. r.job_id) jobs
      → first_in_order text_le (select p jobs) ≡ some j
      → (p j ≡ true) × Stored jobs j
  unfolding first_in_order
  first_in_order-Stored [] j d h = cc
  first_in_order-Stored (y ∷ ys) j d h = elim (Bool-cases (p y)) [
    | inl hit ↦ elim (earlier_cases y j (first_in_order text_le (select p ys)) (rw hit at h)) [
      | inl e ↦ (subst (λ r. p r ≡ true) e hit, Stored-head y j ys e)
      | inr e ↦
          let (passes, there) = first_in_order-Stored ys j d.1 e in
          (passes, Stored-tail y j ys d there)
    ]
    | inr miss ↦
        let (passes, there) = first_in_order-Stored ys j d.1 (rw miss at h) in
        (passes, Stored-tail y j ys d there)
  ]

le_add_one : {a b : ℕ} → a ≤ b → a ≤ b + 1
le_add_one h = omega arith

started_job :
    (id : String) (as' : List WorkerJobAttemptRecord) (a : WorkerJobAttemptRecord)
    → count (of_job id) (as' ++ a ∷ []) ≡ count (of_job id) as' + (if a.job_id == id then 1 else 0)
started_job id as' a = count-append (of_job id) as' (a ∷ []) ∙ ground arith

unused_number :
    (j : WorkerJobRow) (a : WorkerJobAttemptRecord) (as' : List WorkerJobAttemptRecord)
    → a.job_id ≡ j.job_id
    → a.attempt_number ≡ j.attempt_count + 1
    → Numbered as' j
    → any (same_attempt a) as' ≡ false
unused_number j a [] mine next h = refl
unused_number j a (b ∷ bs) mine next h = ground (
  arith,
  h.0,
  unused_number j a bs mine next h.1,
  eq_iff b.job_id j.job_id,
  eq_iff a.job_id b.job_id,
)

unused_serial :
    (next : ℕ) (as' : List WorkerJobAttemptRecord)
    → All (λ a. a.attempt_id < next) as'
    → any (has_key (λ (a : WorkerJobAttemptRecord). a.attempt_id) next) as' ≡ false
unused_serial next [] h = refl
unused_serial next (a ∷ as') h = ground (arith, unused_serial next as' h.1)

module _ {jobs : List WorkerJobRow} {attempts : List WorkerJobAttemptRecord} {next : ℕ}
    (v : Valid jobs attempts next) (input : ClaimWorkerJobInput) (j : WorkerJobRow)
    (stored : Stored jobs j) (room : j.attempt_count < j.max_attempts) where
  abbrev claimed_jobs : List WorkerJobRow
  claimed_jobs = update_where (is_job j.job_id) (claimed_row input) jobs

  abbrev new_attempt : WorkerJobAttemptRecord
  new_attempt = started_attempt input next (claimed_row input j)

  pub claim_unused : any (same_attempt new_attempt) attempts ≡ false
  unfolding started_attempt claimed_row
  claim_unused =
      unused_number j new_attempt attempts refl refl
        (All-find? (Numbered attempts) (is_job j.job_id) jobs j v.numbered stored)

  claimed-IsSound : All IsSound claimed_jobs
  unfolding claimed_row
  claimed-IsSound =
      let sound = All-find? IsSound (is_job j.job_id) jobs j v.sound stored in
      All-update_found (λ r. r.job_id) IsSound (is_job j.job_id) (claimed_row input) jobs j
        v.distinct stored v.sound (ground arith)

  claimed-Counted : All (Counted (attempts ++ new_attempt ∷ [])) claimed_jobs
  unfolding claimed_row started_attempt
  claimed-Counted =
      All-update_split (Counted attempts) (Counted (attempts ++ new_attempt ∷ [])) (is_job j.job_id)
        (claimed_row input) jobs
        (λ r hit h. ground (
          arith,
          started_job r.job_id attempts new_attempt,
          eq_iff r.job_id j.job_id,
          eq_iff j.job_id r.job_id,
        ))
        (λ r miss h. ground (
          arith,
          started_job r.job_id attempts new_attempt,
          eq_iff r.job_id j.job_id,
          eq_iff j.job_id r.job_id,
        ))
        v.counted

  -- A row with the id of the job has counted as many attempts.
  same_count :
      (r : WorkerJobRow)
      → r.job_id ≡ j.job_id
      → Counted attempts r
      → j.attempt_count + 1 ≤ r.attempt_count + 1
  same_count r same k =
      let own = All-find? (Counted attempts) (is_job j.job_id) jobs j v.counted stored in
      let there = ap (λ id. count (of_job id) attempts) same in omega arith

  claimed-Numbered : All (Numbered (attempts ++ new_attempt ∷ [])) claimed_jobs
  unfolding claimed_row started_attempt
  claimed-Numbered =
      All-update_split (λ r. Numbered attempts r × Counted attempts r)
        (Numbered (attempts ++ new_attempt ∷ [])) (is_job j.job_id) (claimed_row input) jobs
        (λ r hit (h, k).
          All-append _ attempts (new_attempt ∷ [])
            (All-mono attempts (λ a below mine. le_add_one (below mine)) h)
            (λ mine. same_count r ((eq_iff r.job_id j.job_id).0 hit) k, tt))
        (λ r miss (h, k). All-append _ attempts (new_attempt ∷ []) h (
          λ mine. absurd (
              cc (
                miss,
                ap (λ id. id == j.job_id) ((eq_iff j.job_id r.job_id).0 mine),
                beq_refl j.job_id,
              )),
          tt,
        ))
        (All-zip (Numbered attempts) (Counted attempts) jobs v.numbered v.counted)

  claimed-Owned : All (Owned claimed_jobs) (attempts ++ new_attempt ∷ [])
  unfolding claimed_row started_attempt
  claimed-Owned =
      All-append (Owned claimed_jobs) attempts (new_attempt ∷ [])
        (All-mono attempts
          (λ a own.
            any-update_where (is_job a.job_id) (is_job j.job_id) (claimed_row input) (λ r. refl)
              jobs
            ∙ own)
          v.owned)
        (
          any-update_where (is_job j.job_id) (is_job j.job_id) (claimed_row input) (λ r. refl) jobs
              ∙ any_of_find? (λ r. r.job_id) (is_job j.job_id) jobs j stored,
          tt,
        )

  -- The tables after a claim.
  pub Valid-claimed : Valid claimed_jobs (attempts ++ new_attempt ∷ []) (suc next)
  unfolding claimed_row started_attempt
  Valid-claimed = record {
    distinct =
        Distinct-update_where (λ r. r.job_id) (is_job j.job_id) (claimed_row input) jobs (λ r. refl)
          v.distinct;
    sound = claimed-IsSound;
    counted = claimed-Counted;
    numbered = claimed-Numbered;
    owned = claimed-Owned;
    distinct_attempts =
        Distinct-append (λ a. a.attempt_id) attempts new_attempt
          (unused_serial next attempts v.serial) v.distinct_attempts;
    serial =
        All-append _ attempts (new_attempt ∷ [])
          (All-mono attempts (λ a below. omega arith) v.serial) (omega arith);
  }

module _ (text_le : String → String → Bool) (input : ClaimWorkerJobInput) (db : Database) where
  abbrev pub candidates : List WorkerJobRow
  candidates = select (is_claimable input.worker_kind input.now) db.jobs

  -- The tables and the answer when a row has been selected.
  abbrev pub started : WorkerJobRow → Database
  started j = record db {
    jobs = update_where (is_job j.job_id) (claimed_row input) db.jobs;
    attempts = db.attempts ++ started_attempt input db.next_attempt_id (claimed_row input j) ∷ [];
    next_attempt_id = suc db.next_attempt_id;
  }

  abbrev pub started_answer : WorkerJobRow → ClaimedWorkerJob
  started_answer j =
      to_claimed_worker_job (claimed_row input j)
        (started_attempt input db.next_attempt_id (claimed_row input j))

  -- The two ways in which `claim` ends on valid tables: it never violates a constraint.
  pub data Ending : Type 0 where
    idle :
        first_in_order text_le candidates ≡ none → claim text_le input db ≡ (db, ok none) → Ending
    starts :
        (j : WorkerJobRow)
        → first_in_order text_le candidates ≡ some j
        → is_claimable input.worker_kind input.now j ≡ true
        → Stored db.jobs j
        → j.attempt_count < j.max_attempts
        → claim text_le input db ≡ (started j, ok (some (started_answer j)))
        → Ending

  pub endings : IsValid db → Ending
  unfolding claim is_claimable
  endings v = elim (Option-cases (first_in_order text_le candidates)) [
    | inl e ↦ idle e (rw (e, claim))
    | inr (j, e) ↦
        let (passes, stored) = first_in_order-Stored text_le _ db.jobs j v.distinct e in
        let room : j.attempt_count < j.max_attempts = ground arith in
        starts j e passes stored room (rw (e, claim, claim_unused v input j stored room))
  ]

  -- A claim keeps the tables valid.
  pub claim-IsValid : IsValid db → IsValid (claim text_le input db).0
  claim-IsValid v = elim (endings v) [
    | idle _ e ↦ rw e v
    | starts j _ _ stored room e ↦ rw e (Valid-claimed v input j stored room)
  ]
