-- ===== src/Worker/Claiming.antt =====
-- Which job `claim` of durable-worker-job-repository.ts takes, and which it leaves.
use data_dyna.Base.{
  ◌<◌, ℕ, String, Option, none, some, List, [], ◌∷◌, Bool, true, false, ◌==◌, string_eq, nat_eq,
  ◌≡◌, ◌≢◌, ◌≤◌, ◌⊎◌, inl, inr, arith, refl, ap, ◌∙◌, sym, subst, Bool-cases, Option-cases, find?,
  select, All, ok, eq_iff,
}
use data_dyna.Base.Table.{All-find?, All-mono, find?-update_where_miss}
use data_dyna.Worker.Types.{
  ClaimWorkerJobInput, ClaimedWorkerJob, WorkerKind, kind_eq, kind_beq_iff,
}
use data_dyna.Worker.Tables.{WorkerJobRow, Database, is_job}
use data_dyna.Worker.Repository.Claim.{
  is_claimable, is_waiting, claimed_row, runs_before, earlier, first_in_order, claim,
}
use data_dyna.Worker.Repository.Progress.{is_running}
use data_dyna.Worker.Invariant.{IsSound, IsValid}
use data_dyna.Worker.Invariant.Claim.{
  Stored, candidates, started, started_answer, endings, idle, starts,
}

-- The order of texts is total and transitive.
pub record IsTextOrder (text_le : String → String → Bool) : Type 0 where
  pub total : (a b : String) → (text_le a b ≡ true) ⊎ (text_le b a ≡ true)
  pub trans : (a b c : String) → text_le a b ≡ true → text_le b c ≡ true → text_le a c ≡ true

-- The order of claims, by next run, then creation, then id.
abbrev pub Precedes : (String → String → Bool) → WorkerJobRow → WorkerJobRow → Type 0
Precedes text_le a b =
    (a.next_run_at < b.next_run_at)
    ⊎ ((a.next_run_at ≡ b.next_run_at)
        × ((a.created_at < b.created_at)
            ⊎ ((a.created_at ≡ b.created_at) × (text_le a.job_id b.job_id ≡ true))))

runs_before-Precedes :
    (text_le : String → String → Bool) (a b : WorkerJobRow)
    → runs_before text_le a b ≡ true
    → Precedes text_le a b
unfolding runs_before
runs_before-Precedes text_le a b h = ground arith

module _ (text_le : String → String → Bool) where
  earlier_some : (a : WorkerJobRow) (q : Option WorkerJobRow) → earlier text_le a q ≢ none
  earlier_some a none h = cc
  earlier_some a (some b) h = ground arith

  first_in_order-none : (jobs : List WorkerJobRow) → first_in_order text_le jobs ≡ none → jobs ≡ []
  unfolding first_in_order
  first_in_order-none [] h = refl
  first_in_order-none (y ∷ ys) h = absurd (earlier_some y _ h)

module _ (text_le : String → String → Bool) (o : IsTextOrder text_le) where
  runs_before_total :
      (a b : WorkerJobRow) → runs_before text_le a b ≡ false → runs_before text_le b a ≡ true
  unfolding runs_before
  runs_before_total a b h = ground (arith, o.total a.job_id b.job_id)

  runs_before_trans :
      (a b c : WorkerJobRow)
      → runs_before text_le a b ≡ true
      → runs_before text_le b c ≡ true
      → runs_before text_le a c ≡ true
  unfolding runs_before
  runs_before_trans a b c h k = ground (arith, o.trans a.job_id b.job_id c.job_id)

  runs_before_refl : (a : WorkerJobRow) → runs_before text_le a a ≡ true
  unfolding runs_before
  runs_before_refl a = ground (arith, o.total a.job_id a.job_id)

  first_in_order_least :
      (jobs : List WorkerJobRow) (j : WorkerJobRow)
      → first_in_order text_le jobs ≡ some j
      → All (λ r. runs_before text_le j r ≡ true) jobs
  unfolding first_in_order
  first_in_order_least [] j h = tt
  first_in_order_least (y ∷ ys) j h = elim (Option-cases (first_in_order text_le ys)) [
    | inl e ↦
        let here : y ≡ j = cc (rw (e, earlier) at h) in
        (
          subst (λ r. runs_before text_le r y ≡ true) here (runs_before_refl y),
          subst (All (λ r. runs_before text_le j r ≡ true)) (sym (first_in_order-none text_le ys e))
              tt,
        )
    | inr (b, e) ↦
        let later = first_in_order_least ys b e in
        elim (Bool-cases (runs_before text_le y b)) [
          | inl first ↦
              let here : y ≡ j = cc (rw (e, earlier, first) at h) in
              subst (λ r. All (λ k. runs_before text_le r k ≡ true) (y ∷ ys)) here
                (runs_before_refl y, All-mono ys (λ k. runs_before_trans y b k first) later)
          | inr other ↦
              let here : b ≡ j = cc (rw (e, earlier, other) at h) in
              subst (λ r. All (λ k. runs_before text_le r k ≡ true) (y ∷ ys)) here
                (runs_before_total y b other, later)
        ]
  ]

  -- With a total and transitive order of texts, a claim on valid tables that returns a job took a
  -- claimable job of the kind, and every job that it could have taken has a later next run, or the
  -- same one and a later creation, or the same of both and an id that is not before. It is the
  -- only row that changes, and the answer shows it as it is stored afterwards, with a new attempt.
  pub claim_takes_first :
      (input : ClaimWorkerJobInput) (db : Database) (c : ClaimedWorkerJob)
      → IsValid db
      → (claim text_le input db).1 ≡ ok (some c)
      → (j : WorkerJobRow) × (is_claimable input.worker_kind input.now j ≡ true)
        × Stored db.jobs j
        × All (Precedes text_le j) (candidates text_le input db)
        × (c ≡ started_answer text_le input db j)
        × ((claim text_le input db).0 ≡ started text_le input db j)
  claim_takes_first input db c v h = elim (endings text_le input db v) [
    | idle _ e ↦ absurd (cc (ap (λ p. p.1) e))
    | starts j first passes stored room e ↦ (
      j,
      passes,
      stored,
      All-mono (candidates text_le input db) (runs_before-Precedes text_le j)
          (first_in_order_least (candidates text_le input db) j first),
      cc (ap (λ p. p.1) e),
      ap (λ p. p.0) e,
    )
  ]

waiting_claimable :
    {kind : WorkerKind} {now : ℕ} {j : WorkerJobRow}
    → IsSound j
    → j.worker_kind ≡ kind
    → is_waiting j.status ≡ true
    → j.next_run_at ≤ now
    → is_claimable kind now j ≡ true
unfolding is_claimable
waiting_claimable {kind} {now} {j} s same waits due =
    let idle : is_running j.status ≡ false = ground arith in
    let unlocked = (s.free idle).1 in
    let room = s.waiting waits in ground (arith, kind_beq_iff j.worker_kind kind)

claimable_waits :
    (kind : WorkerKind) (now : ℕ) (j : WorkerJobRow)
    → is_claimable kind now j ≡ true
    → is_waiting j.status ≡ true
unfolding is_claimable
claimable_waits kind now j h = ground arith

waiting_not_running :
    (j : WorkerJobRow) → is_waiting j.status ≡ true → ¬ (is_running j.status ≡ true)
waiting_not_running j w r = ground arith

select-some :
    (p : WorkerJobRow → Bool) (jobs : List WorkerJobRow) (q : WorkerJobRow → Bool)
    (j : WorkerJobRow)
    → find? q jobs ≡ some j
    → p j ≡ true
    → select p jobs ≢ []
select-some p [] q j h k e = cc
select-some p (y ∷ ys) q j h k e = elim (Bool-cases (p y)) [
  | inl hit ↦ cc (rw hit at e)
  | inr miss ↦ elim (Bool-cases (q y)) [
    | inl here ↦
        let same : some y ≡ some j = rw here at h in
        let y_is_j : y ≡ j = cc in cc (subst (λ r. p r ≡ true) (sym y_is_j) k)
    | inr there ↦ select-some p ys q j (rw there at h) k (rw miss at e)
  ]
]

module _ (text_le : String → String → Bool) where
  -- On valid tables, if a job of the kind is queued or scheduled for a retry and its time has
  -- come, the claim returns a job.
  pub claim_finds :
      (input : ClaimWorkerJobInput) (db : Database) (id : String) (j : WorkerJobRow)
      → IsValid db
      → find? (is_job id) db.jobs ≡ some j
      → j.worker_kind ≡ input.worker_kind
      → is_waiting j.status ≡ true
      → j.next_run_at ≤ input.now
      → (c : ClaimedWorkerJob) × ((claim text_le input db).1 ≡ ok (some c))
  claim_finds input db id j v found kind waits due = elim (endings text_le input db v) [
    | idle none_found e ↦ absurd (
        select-some _ db.jobs (is_job id) j found claimable
          (first_in_order-none text_le _ none_found))
    | starts k _ _ _ _ e ↦ (started_answer text_le input db k, ap (λ p. p.1) e)
  ]
    where
      claimable : is_claimable input.worker_kind input.now j ≡ true
      claimable =
          waiting_claimable (All-find? IsSound (is_job id) db.jobs j v.sound found) kind waits due

  -- On valid tables a claim leaves the row of a running job as it is, whatever the time and
  -- whatever its lease.
  pub claim_leaves_running :
      (input : ClaimWorkerJobInput) (db : Database) (id : String) (j : WorkerJobRow)
      → IsValid db
      → find? (is_job id) db.jobs ≡ some j
      → is_running j.status ≡ true
      → find? (is_job id) (claim text_le input db).0.jobs ≡ some j
  unfolding claimed_row
  claim_leaves_running input db id j v found runs = elim (endings text_le input db v) [
    | idle _ e ↦ rw e found
    | starts k _ passes stored _ e ↦ elim (Bool-cases (k.job_id == id)) [
      | inl same ↦
          let here : find? (is_job id) db.jobs ≡ some k =
            subst (λ i. find? (is_job i) db.jobs ≡ some k) ((eq_iff k.job_id id).0 same) stored in
          let k_is_j : k ≡ j = cc in
          absurd (
            waiting_not_running k (claimable_waits _ _ k passes)
              (subst (λ r. is_running r.status ≡ true) (sym k_is_j) runs))
      | inr other ↦ rw e (
          find?-update_where_miss (is_job id) (is_job k.job_id) (claimed_row input) db.jobs
            (λ x hit. apart k.job_id id other x hit)
          ∙ found)
    ]
  ]
    where
      apart :
          (i i' : String)
          → (i == i') ≡ false
          → (x : WorkerJobRow) → is_job i x ≡ true
          → (is_job i' x ≡ false) × (is_job i' (claimed_row input x) ≡ false)
      apart i i' ne x hit =
          let same = (eq_iff x.job_id i).0 hit in
          let other : (x.job_id == i') ≡ false = ap (λ k. k == i') same ∙ ne in (other, other)
