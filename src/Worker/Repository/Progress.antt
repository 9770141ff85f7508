-- ===== src/Worker/Repository/Progress.antt =====
-- `heartbeat`, `checkpoint`, `complete` and `readFreshness` of durable-worker-job-repository.ts.
-- The database's md5 is the parameter `md5`.
use data_dyna.Base.{
  ℕ, String, Option, none, some, List, ◌++◌, [], ◌∷◌, Bool, true, false, ◌&&◌, ◌==◌, string_eq,
  nat_eq, option_beq, coalesce, Outcome, ok, thrown, find?, update_where,
}
use Prim.Native.String.{◌++◌ as string_append}
use data_dyna.Contract.{Fields}
use data_dyna.Worker.Types.{
  WorkerKind, kind_eq, kind_text, WorkerJobStatus, WorkerAttemptStatus, WorkerJobAttemptRecord,
  WorkerJobRecord, WorkerFreshnessRecord, Thrown, ClaimedWorkerJob, WorkerTenantScope,
  WorkerSourceScope, WorkerWatermark, to_column,
}
use data_dyna.Worker.Repository.Columns.{JsonColumns, stringify_jsonb, to_jsonb, given}
use data_dyna.Worker.Tables.{
  WorkerJobRow, WorkerFreshnessRow, Database, Query, is_job, is_attempt, no_row,
  to_worker_job_record, to_claimed_worker_job, to_worker_freshness_record,
}

abbrev pub is_running : WorkerJobStatus → Bool
is_running WorkerJobStatus.running = true
is_running _ = false

abbrev pub is_running_job : String → WorkerJobRow → Bool
is_running_job id j = is_job id j && is_running j.status

unfoldable pub beating_row : ℕ → WorkerJobRow → WorkerJobRow
beating_row now j = record j { heartbeat_at = some now; updated_at = now }

unfoldable pub beating_attempt : ℕ → WorkerJobAttemptRecord → WorkerJobAttemptRecord
beating_attempt now a = record a { heartbeat_at = some now }

-- The join of the two updates.
abbrev pub joined :
    Option WorkerJobRow
    → Option WorkerJobAttemptRecord
    → Option (WorkerJobRow × WorkerJobAttemptRecord)
joined (some j) (some a) = some (j, a)
joined _ _ = none

abbrev beaten : ℕ → Option (WorkerJobRow × WorkerJobAttemptRecord) → Option ClaimedWorkerJob
beaten now none = none
beaten now (some (j, a)) = some (to_claimed_worker_job (beating_row now j) (beating_attempt now a))

unfoldable pub heartbeat : String → ℕ → ℕ → Query (Option ClaimedWorkerJob)
unfolding beating_row beating_attempt to_claimed_worker_job
heartbeat job_id attempt_id now db = (
  record db {
    jobs = update_where (is_running_job job_id) (beating_row now) db.jobs;
    attempts = update_where (is_attempt job_id attempt_id) (beating_attempt now) db.attempts;
  },
  ok (
      beaten now (
        joined (find? (is_running_job job_id) db.jobs)
          (find? (is_attempt job_id attempt_id) db.attempts))),
)

unfoldable pub checkpointed_attempt :
    WorkerWatermark → ℕ → WorkerJobAttemptRecord → WorkerJobAttemptRecord
checkpointed_attempt watermark now a = record a {
  status = WorkerAttemptStatus.checkpointed;
  output_watermark = some watermark;
  heartbeat_at = some now;
}

infixr 64 ◌bar◌
abbrev ◌bar◌ : String → String → String
a bar b = string_append a (string_append "|" b)

-- `concat_ws('|', …)` of a job's scope.
unfoldable pub scope_text : WorkerJobRow → String
scope_text j =
    kind_text j.worker_kind
    bar coalesce j.merchant_id ""
    bar coalesce j.store_id ""
    bar j.source
    bar coalesce j.producer_service ""
    bar coalesce j.producer_environment ""

unfoldable pub committed_row :
    String → WorkerJobRow → ℕ → WorkerWatermark → Fields → ℕ → WorkerFreshnessRow
committed_row checkpoint_id j attempt_id watermark summary now = record {
  checkpoint_id = checkpoint_id;
  worker_kind = j.worker_kind;
  brand_id = j.brand_id;
  merchant_id = j.merchant_id;
  store_id = j.store_id;
  source = j.source;
  producer_service = j.producer_service;
  producer_environment = j.producer_environment;
  committed_watermark = watermark;
  committed_job_id = j.job_id;
  committed_attempt_id = attempt_id;
  output_summary = summary;
  committed_at = now;
  updated_at = now;
}

-- `ON CONFLICT (checkpoint_id) DO UPDATE`: the scope columns of the old row stay.
unfoldable pub recommitted_row : WorkerFreshnessRow → WorkerFreshnessRow → WorkerFreshnessRow
recommitted_row new old = record old {
  committed_watermark = new.committed_watermark;
  committed_job_id = new.committed_job_id;
  committed_attempt_id = new.committed_attempt_id;
  output_summary = new.output_summary;
  committed_at = new.committed_at;
  updated_at = new.updated_at;
}

abbrev pub is_checkpoint : String → WorkerFreshnessRow → Bool
is_checkpoint id c = c.checkpoint_id == id

-- The table and the row that the upsert leaves.
unfoldable pub upsert_checkpoint :
    WorkerFreshnessRow → List WorkerFreshnessRow → List WorkerFreshnessRow × WorkerFreshnessRow
unfolding recommitted_row
upsert_checkpoint new table = elim (find? (is_checkpoint new.checkpoint_id) table) [
  | some old ↦ (
    update_where (is_checkpoint new.checkpoint_id) (recommitted_row new) table,
    recommitted_row new old,
  )
  | none ↦ (table ++ new ∷ [], new)
]

unfoldable pub succeeded_attempt :
    WorkerWatermark → ℕ → WorkerJobAttemptRecord → WorkerJobAttemptRecord
succeeded_attempt watermark now a = record a {
  status = WorkerAttemptStatus.succeeded;
  output_watermark = some watermark;
  finished_at = some now;
}

unfoldable pub succeeded_row : ℕ → WorkerJobRow → WorkerJobRow
succeeded_row now j = record j {
  status = WorkerJobStatus.succeeded;
  locked_by = none;
  locked_until = none;
  completed_at = some now;
  updated_at = now;
}

-- The second statement of `complete`, with the watermark as its column stores it. A job is updated
-- if the attempt is found.
unfoldable pub mark_stored : String → ℕ → ℕ → (watermark : WorkerWatermark) → Query WorkerJobRecord
unfolding succeeded_attempt succeeded_row
mark_stored job_id attempt_id now watermark db =
    elim (joined (find? (is_job job_id) db.jobs)
      (find? (is_attempt job_id attempt_id) db.attempts)) [
        | none ↦ (
          record db {
            attempts =
                update_where (is_attempt job_id attempt_id) (succeeded_attempt watermark now)
                  db.attempts;
          },
          thrown (no_row "Worker completion did not return a row."),
        )
        | some (j, a) ↦ (
          record db {
            jobs = update_where (is_job job_id) (succeeded_row now) db.jobs;
            attempts =
                update_where (is_attempt job_id attempt_id) (succeeded_attempt watermark now)
                  db.attempts;
          },
          ok (to_worker_job_record (succeeded_row now j)),
        )
      ]

unfoldable pub mark_succeeded :
    JsonColumns → String → ℕ → WorkerWatermark → ℕ → Query WorkerJobRecord
unfolding mark_stored
mark_succeeded columns job_id attempt_id watermark now =
    given (to_jsonb columns watermark "worker final watermark") (mark_stored job_id attempt_id now)

module _ (md5 : String → String) where
  unfoldable pub checkpoint_id_of : WorkerJobRow → String
  unfolding scope_text
  checkpoint_id_of j = string_append "worker_checkpoint:" (md5 (scope_text j))

  -- The statement of `checkpoint`, with the watermark and the summary as their columns store them.
  unfoldable pub checkpoint_stored :
      String → ℕ → ℕ → (watermark summary : Fields) → Query WorkerFreshnessRecord
  unfolding upsert_checkpoint checkpoint_id_of checkpointed_attempt committed_row
  checkpoint_stored job_id attempt_id now watermark summary db =
      let attempts =
        update_where (is_attempt job_id attempt_id) (checkpointed_attempt watermark now)
          db.attempts in
      elim (joined (find? (is_job job_id) db.jobs)
        (find? (is_attempt job_id attempt_id) db.attempts)) [
          | none ↦ (
            record db { attempts = attempts },
            thrown (no_row "Worker checkpoint did not return a row."),
          )
          | some (j, a) ↦
              let (checkpoints, row) =
                upsert_checkpoint
                  (committed_row (checkpoint_id_of j) j a.attempt_id watermark summary now)
                  db.checkpoints in
              (
                record db { attempts = attempts; checkpoints = checkpoints },
                ok (to_worker_freshness_record row),
              )
        ]

  module _ (columns : JsonColumns) where
    unfoldable pub checkpoint :
        String → ℕ → WorkerWatermark → Fields → ℕ → Query WorkerFreshnessRecord
    unfolding checkpoint_stored
    checkpoint job_id attempt_id watermark summary now =
        given (stringify_jsonb columns watermark "worker output watermark") λ watermark_text.
          given (stringify_jsonb columns summary "worker output summary") λ summary_text.
            given (columns.store watermark_text) λ stored_watermark.
              given (columns.store summary_text)
                (checkpoint_stored job_id attempt_id now stored_watermark)

    unfoldable pub and_mark :
        String
        → ℕ
        → WorkerWatermark
        → ℕ
        → Database × Outcome Thrown WorkerFreshnessRecord
        → Database × Outcome Thrown WorkerJobRecord
    and_mark job_id attempt_id watermark now (db, thrown e) = (db, thrown e)
    and_mark job_id attempt_id watermark now (db, ok _) =
        mark_succeeded columns job_id attempt_id watermark now db

    unfoldable pub complete : String → ℕ → WorkerWatermark → Fields → ℕ → Query WorkerJobRecord
    unfolding mark_succeeded and_mark
    complete job_id attempt_id watermark summary now db =
        and_mark job_id attempt_id watermark now
          (checkpoint job_id attempt_id watermark summary now db)

-- `IS NOT DISTINCT FROM` on the optional columns.
unfoldable pub is_scope :
    WorkerKind → WorkerTenantScope → WorkerSourceScope → WorkerFreshnessRow → Bool
is_scope kind tenant source c =
    c.worker_kind == kind
    && option_beq c.merchant_id (to_column tenant.merchant_id)
    && option_beq c.store_id (to_column tenant.store_id)
    && c.source == source.source
    && option_beq c.producer_service (to_column source.producer_service)
    && option_beq c.producer_environment (to_column source.producer_environment)

abbrev freshness_of : Option WorkerFreshnessRow → Option WorkerFreshnessRecord
freshness_of none = none
freshness_of (some row) = some (to_worker_freshness_record row)

unfoldable pub read_freshness :
    WorkerKind → WorkerTenantScope → WorkerSourceScope → Database → Option WorkerFreshnessRecord
unfolding is_scope
read_freshness kind tenant source db =
    freshness_of (find? (is_scope kind tenant source) db.checkpoints)
