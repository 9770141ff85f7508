-- ===== src/Worker/Policy.antt =====
-- src/app/workers/worker-failure-policy.ts: what becomes of an attempt that threw. The texts of
-- JavaScript and its regular expressions are the parameter `Texts`; a number of seconds is a natural
-- number.
pub mod Persist
pub mod Diagnostics
pub mod Backoff
use data_dyna.Base.{
  ℕ, suc, zero, ◌+◌, ◌-◌, ◌*◌, ◌^◌, String, Option, none, some, Bool, true, false, ◌&&◌, ◌||◌,
  coalesce, Outcome, ok, thrown, if◌then◌else◌, ltb, leb,
}
use Prim.Native.String.{◌++◌ as string_append}
use data_dyna.Base.Int.{ℤ}
use data_dyna.Contract.{Json, Items, Fields}
use data_dyna.Worker.Types.{
  WorkerFailureClass, WorkerFailureReasonCode, WorkerExecutionError, Thrown, execution_error,
  plain_error, violation, non_error, ClaimedWorkerJob, WorkerJobRecord, kind_text,
}

-- The four patterns that `safeText` replaces, by what they find.
pub data Pattern : Type 0 where
  bearer_credential named_secret card_number phone_number : Pattern

pub record Texts : Type 0 where
  pub length : String → ℕ
  -- `slice(0, n)`
  pub prefix : ℕ → String → String
  pub to_lower_case : String → String
  pub includes : String → String → Bool
  pub replace : Pattern → String → String

pub record WorkerFailurePolicyInput : Type 0 where
  pub retry_base_delay_seconds : Option ℕ
  pub retry_max_delay_seconds : Option ℕ
  pub next_operator_action : Option String

pub data FailureAction : Type 0 where
  retry dead_letter : FailureAction

pub record WorkerFailureDecision : Type 0 where
  pub action : FailureAction
  pub failure_class : WorkerFailureClass
  pub reason_code : WorkerFailureReasonCode
  pub safe_diagnostic : Fields
  pub next_run_at : Option ℕ
  pub next_operator_action : Option String

pub record PersistedWorkerFailure : Type 0 where
  pub decision : WorkerFailureDecision
  pub failed_job : WorkerJobRecord

abbrev pub class_text : WorkerFailureClass → String
class_text WorkerFailureClass.transient_storage = "transient_storage"
class_text WorkerFailureClass.transient_runtime = "transient_runtime"
class_text WorkerFailureClass.contract_violation = "contract_violation"
class_text WorkerFailureClass.tenant_policy = "tenant_policy"
class_text WorkerFailureClass.idempotency_conflict = "idempotency_conflict"
class_text WorkerFailureClass.unexpected = "unexpected"

abbrev pub reason_text : WorkerFailureReasonCode → String
reason_text WorkerFailureReasonCode.storage_unavailable = "storage_unavailable"
reason_text WorkerFailureReasonCode.runtime_exception = "runtime_exception"
reason_text WorkerFailureReasonCode.contract_violation = "contract_violation"
reason_text WorkerFailureReasonCode.tenant_policy_rejected = "tenant_policy_rejected"
reason_text WorkerFailureReasonCode.idempotency_conflict = "idempotency_conflict"
reason_text WorkerFailureReasonCode.unexpected_worker_failure = "unexpected_worker_failure"

abbrev pub action_text : FailureAction → String
action_text FailureAction.retry = "retry"
action_text FailureAction.dead_letter = "dead_letter"

unfoldable pub default_retryable : WorkerFailureClass → Bool
default_retryable WorkerFailureClass.transient_storage = true
default_retryable WorkerFailureClass.transient_runtime = true
default_retryable WorkerFailureClass.unexpected = true
default_retryable _ = false

pub record FailureMetadata : Type 0 where
  pub failure_class : WorkerFailureClass
  pub reason_code : WorkerFailureReasonCode
  pub retryable : Bool
  pub error_name : String
  pub error_message : String

-- The metadata of all that is no `WorkerExecutionError`.
abbrev pub unexpected_failure : String → String → FailureMetadata
unfolding default_retryable
unexpected_failure name message = record {
  failure_class = WorkerFailureClass.unexpected;
  reason_code = WorkerFailureReasonCode.unexpected_worker_failure;
  retryable = default_retryable WorkerFailureClass.unexpected;
  error_name = name;
  error_message = message;
}

-- The driver's error for a violated constraint is an `Error`.
unfoldable pub worker_failure_metadata : Thrown → FailureMetadata
worker_failure_metadata (execution_error e) = record {
  failure_class = e.failure_class;
  reason_code = e.reason_code;
  retryable = e.retryable;
  error_name = "WorkerExecutionError";
  error_message = e.message;
}
worker_failure_metadata (plain_error name message) = unexpected_failure name message
worker_failure_metadata (violation constraint) = unexpected_failure "error" constraint
worker_failure_metadata (non_error type_name text) = unexpected_failure type_name text

abbrev pub at_least : ℕ → ℕ → ℕ
at_least a b = if leb a b then b else a

abbrev pub at_most : ℕ → ℕ → ℕ
at_most a b = if leb a b then a else b

unfoldable pub base_seconds : WorkerFailurePolicyInput → ℕ
base_seconds policy = at_least 1 (coalesce policy.retry_base_delay_seconds 30)

unfoldable pub max_seconds : WorkerFailurePolicyInput → ℕ
unfolding base_seconds
max_seconds policy = at_least (base_seconds policy) (coalesce policy.retry_max_delay_seconds 300)

-- `Math.max(0, attemptCount - 1)` is the subtraction on ℕ.
unfoldable pub retry_backoff_at : ClaimedWorkerJob → ℕ → WorkerFailurePolicyInput → ℕ
unfolding base_seconds max_seconds
retry_backoff_at claimed now policy =
    now
    + at_most (max_seconds policy) (base_seconds policy * 2 ^ (claimed.job.attempt_count - 1))
      * 1000

module _ (texts : Texts) where
  unfoldable pub truncate : String → String
  truncate value =
      if ltb 240 (texts.length value) then string_append (texts.prefix 237 value) "..." else value

  unfoldable pub safe_text : String → String
  unfolding truncate
  safe_text value = truncate (
      texts.replace phone_number (
        texts.replace card_number
          (texts.replace named_secret (texts.replace bearer_credential value))))

  unfoldable pub forbidden_diagnostic_key : String → Bool
  forbidden_diagnostic_key key =
      let normalized = texts.to_lower_case key in
      texts.includes normalized "authorization"
      || texts.includes normalized "bearer"
      || texts.includes normalized "token"
      || texts.includes normalized "secret"
      || texts.includes normalized "password"
      || texts.includes normalized "credential"
      || texts.includes normalized "idempotency"
      || texts.includes normalized "payment"
      || texts.includes normalized "card"
      || texts.includes normalized "customer"
      || texts.includes normalized "phone"
      || texts.includes normalized "email"
      || texts.includes normalized "address"
      || texts.includes normalized "payload"
      || texts.includes normalized "raw"
      || texts.includes normalized "body"
      || texts.includes normalized "merchantnote"
      || texts.includes normalized "merchantsecret"

  -- `if (depth > 4) return "[redacted-depth]"`, ahead of `value`.
  abbrev pub unless_deep : ℕ → Json → Json
  unless_deep depth value = if ltb 4 depth then Json.str "[redacted-depth]" else value

  -- `sanitizeDiagnostic`, with the two containers' own functions: `left` is how many more entries of
  -- an array are kept.
  unfoldable mutual
    pub sanitize_diagnostic : Json → ℕ → Json
    sanitize_diagnostic Json.null depth = unless_deep depth Json.null
    sanitize_diagnostic (Json.bool b) depth = unless_deep depth (Json.bool b)
    sanitize_diagnostic (Json.num n) depth = unless_deep depth (Json.num n)
    sanitize_diagnostic (Json.str s) depth = unless_deep depth (Json.str (safe_text s))
    sanitize_diagnostic (Json.arr items) depth =
        unless_deep depth (Json.arr (sanitize_items 10 items (suc depth)))
    sanitize_diagnostic (Json.obj fields) depth =
        unless_deep depth (Json.obj (sanitize_fields fields (suc depth)))

    pub sanitize_items : ℕ → Items → ℕ → Items
    sanitize_items zero items depth = Items.nil
    sanitize_items (suc left) Items.nil depth = Items.nil
    sanitize_items (suc left) (Items.cons v rest) depth =
        Items.cons (sanitize_diagnostic v depth) (sanitize_items left rest depth)

    pub sanitize_fields : Fields → ℕ → Fields
    sanitize_fields Fields.end depth = Fields.end
    sanitize_fields (Fields.field key v rest) depth =
        Fields.field key
          (if forbidden_diagnostic_key key
            then Json.str "[redacted]"
            else sanitize_diagnostic v depth)
          (sanitize_fields rest depth)
