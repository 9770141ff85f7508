-- ===== src/Worker/Samples.antt =====
-- Jobs, calls and a host at which the theorems on the workers are applied.
use data_dyna.Base.{
  thrown, ok, ℕ, String, some, List, [], ◌∷◌, true, refl, inl, coalesce, string_eq, nat_eq,
}
use Prim.Native.String.{◌++◌ as string_append}
use data_dyna.Contract.{end}
use data_dyna.Worker.Types.{
  plain_error, WorkerKind, to_column, WorkerTenantScope, WorkerSourceScope, null, undefined, text,
  EnqueueWorkerJobInput, ClaimWorkerJobInput, WorkerFailureClass,
}
use data_dyna.Worker.Tables.{WorkerJobRow, Database, no_rows}
use data_dyna.Worker.Repository.Enqueue.{queued_row}
use data_dyna.Worker.History.{Host, Call, enqueues, claims, completes, retries, run}
use data_dyna.Worker.Claiming.{IsTextOrder}

abbrev pub scope : WorkerTenantScope
scope = record { brand_id = null; merchant_id = text "m1"; store_id = text "s1" }

abbrev pub other_brand : WorkerTenantScope
other_brand = record { brand_id = text "b2"; merchant_id = text "m1"; store_id = text "s1" }

abbrev pub from_pos : WorkerSourceScope
from_pos = record {
  source = "pos";
  producer_service = text "pos-api";
  producer_environment = undefined;
}

abbrev pub input_of : String → ℕ → EnqueueWorkerJobInput
input_of identity now = record {
  worker_kind = WorkerKind.projection;
  tenant_scope = scope;
  source_scope = from_pos;
  input_watermark = end;
  idempotency_identity = identity;
  correlation_id = "c1";
  max_attempts = some 2;
  now = now;
}

-- The job id is the identity, and the brand where there is one.
abbrev pub brand_text : WorkerTenantScope → String
brand_text s = coalesce (to_column s.brand_id) ""

abbrev pub plain_host : Host
plain_host = record {
  hash_stable_json = λ i. string_append i.idempotency_identity (brand_text i.tenant_scope);
  md5 = λ s. s;
  text_le = λ a b. true;
  columns = record { stringify = λ value. ok "{}"; store = λ written. ok end };
}

-- Its columns refuse every value.
abbrev pub refusing_host : Host
refusing_host = record plain_host {
  columns = record {
    stringify = λ value. ok "{}";
    store = λ written. thrown (plain_error "error" "unsupported Unicode escape sequence");
  };
}

abbrev pub any_order : IsTextOrder plain_host.text_le
any_order = record { total = λ a b. inl refl; trans = λ a b c h k. refl }

abbrev pub claim_at : ℕ → ClaimWorkerJobInput
claim_at now = record {
  worker_kind = WorkerKind.projection;
  worker_id = "w1";
  now = now;
  lease_seconds = 60;
}

abbrev pub two_calls : List Call
two_calls = enqueues (input_of "late" 20) ∷ enqueues (input_of "early" 10) ∷ []

abbrev pub two_queued : Database
two_queued = run plain_host two_calls no_rows

abbrev pub busy_calls : List Call
busy_calls =
    enqueues (input_of "late" 20)
    ∷ enqueues (input_of "early" 10)
    ∷ claims (claim_at 30)
    ∷ retries "worker_job:early" 1 WorkerFailureClass.unexpected 40 end 31
    ∷ claims (claim_at 50)
    ∷ completes "worker_job:late" 2 end end 60
    ∷ []

abbrev pub early_row : WorkerJobRow
early_row = queued_row "worker_job:early" (input_of "early" 10)

abbrev pub late_queued : Database
late_queued = run plain_host (enqueues (input_of "late" 20) ∷ []) no_rows

abbrev pub other_brand_input : EnqueueWorkerJobInput
other_brand_input = record (input_of "early" 10) { tenant_scope = other_brand }

abbrev pub running_calls : List Call
running_calls =
    enqueues (input_of "late" 20) ∷ enqueues (input_of "early" 10) ∷ claims (claim_at 30) ∷ []

abbrev pub early_running : Database
early_running = run plain_host running_calls no_rows
