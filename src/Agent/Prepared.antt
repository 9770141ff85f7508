-- ===== src/Agent/Prepared.antt =====
-- src/agent/prepared-attempt.ts: the types, and what its data may not hold.
-- The parameter `Platform` has ISO times, the order and the lengths of texts, the patterns, the sort
-- of an object's entries, JSON.stringify and sha256.
pub mod Policy
pub mod Schemas
pub mod Prepare
pub mod Tools
pub mod Ready
pub mod Runs
use data_dyna.Base.{
  ℕ, String, Option, none, some, List, [], ◌∷◌, Bool, true, false, not, ◌&&◌, ◌||◌, ◌==◌, string_eq,
  any,
}
use data_dyna.Base.Int.{pos}
use Prim.Native.String.{◌++◌ as string_append}
use data_dyna.Contract.{Json, Items, Fields, null, bool, num, str, arr, obj, nil, cons, end, field}
use data_dyna.Agent.{includes, Sorting}
use data_dyna.Agent.Sidecar.{AgentReadOnlyToolName, PreparedAttemptStatus}
use data_dyna.Worker.Types.{WorkerKind, WorkerFreshnessRecord}

pub record Platform : Type 0 where
  pub iso : ℕ → String
  pub is_before : String → String → Bool
  pub matches_secret : String → Bool
  pub normalized : String → String
  pub sort_entries : Fields → Fields
  pub json_text : Json → String
  pub utf8_length : String → ℕ
  pub sha256 : String → String
  pub schema_message : String
  pub sorting : Sorting

pub data FailureCode : Type 0 where
  missing_freshness stale_freshness dead_lettered_worker tenant_or_source_mismatch : FailureCode
  context_budget_exceeded forbidden_raw_data free_form_identity_scope : FailureCode
  unsafe_tool_catalog : FailureCode

pub record PreparedAttemptFailureReason : Type 0 where
  pub code : FailureCode
  pub message : String

pub record PreparedAttemptContextBudget : Type 0 where
  pub max_seed_bytes : ℕ
  pub max_tool_result_bytes : ℕ

-- The scopes without what is null or undefined.
pub record WorkerFreshnessRef : Type 0 where
  pub worker_kind : WorkerKind
  pub brand_id : Option String
  pub merchant_id : Option String
  pub store_id : Option String
  pub source : String
  pub producer_service : Option String
  pub producer_environment : Option String
  pub committed_job_id : String
  pub committed_attempt_id : ℕ
  pub committed_watermark : Fields
  pub committed_at : String
  pub output_summary : Fields

-- The boundaries of a tool are descriptions.
pub record AgentReadOnlyToolDescriptor : Type 0 where
  pub name : AgentReadOnlyToolName
  pub capability : String
  pub mutation_policy : String

pub record FreshnessIndexEntry : Type 0 where
  pub worker_kind : WorkerKind
  pub tool_name : AgentReadOnlyToolName
  pub committed_job_id : String
  pub committed_attempt_id : ℕ
  pub committed_at : String

pub record AgentContextSeed : Type 0 where
  pub brand_id : String
  pub store_id : String
  pub opportunity_gap_id : String
  pub evidence_refs : List String
  pub assumptions : List String
  pub freshness_index : List FreshnessIndexEntry

-- The whole attempt; `Agent.Sidecar.PreparedAgentAttempt` is what a run reads of it.
pub record PreparedAgentAttempt : Type 0 where
  pub attempt_id : String
  pub agent_run_id : String
  pub session_id : String
  pub brand_id : String
  pub store_id : String
  pub opportunity_gap_id : String
  pub requested_by : String
  pub created_at : String
  pub status : PreparedAttemptStatus
  pub context_budget : PreparedAttemptContextBudget
  pub allowed_read_capabilities : List AgentReadOnlyToolName
  pub forbidden_capabilities : List String
  pub worker_freshness_refs : List WorkerFreshnessRef
  pub context_seed : Option AgentContextSeed
  pub context_seed_hash : Option String
  pub failure_reason : Option PreparedAttemptFailureReason

pub record PreparedAttemptDeadLetterDiagnosis : Type 0 where
  pub worker_kind : WorkerKind
  pub reason_code : String
  pub next_operator_action : String

pub record PrepareAgentAttemptInput : Type 0 where
  pub attempt_id : String
  pub agent_run_id : String
  pub session_id : String
  pub brand_id : String
  pub store_id : String
  pub opportunity_gap_id : String
  pub requested_by : String
  pub created_at : String
  pub identity_source : String
  pub freshness_records : List WorkerFreshnessRecord
  pub context_budget : PreparedAttemptContextBudget
  pub evidence_refs : Option (List String)
  pub assumptions : Option (List String)
  pub minimum_committed_at : Option String
  pub required_worker_kinds : Option (List WorkerKind)
  pub tool_catalog : Option (List AgentReadOnlyToolDescriptor)
  pub dead_letter_diagnoses : Option (List PreparedAttemptDeadLetterDiagnosis)

abbrev pub forbidden_keys : List String
forbidden_keys =
    "raw" ∷ "rawpayload" ∷ "payload" ∷ "properties" ∷ "secret" ∷ "token" ∷ "bearer"
    ∷ "authorization" ∷ "password" ∷ "credential" ∷ "credentials" ∷ "pan" ∷ "cardnumber"
    ∷ "customerid" ∷ "memberid" ∷ "deviceid" ∷ "sql" ∷ "query" ∷ []

module _ (platform : Platform) where
  -- `forbiddenKey`, on the key in lower case without dashes and underscores.
  unfoldable pub forbidden_key : String → Bool
  forbidden_key key = includes forbidden_keys (platform.normalized key)

  unfoldable mutual
    pub has_forbidden_raw_data : Json → Bool
    has_forbidden_raw_data null = false
    has_forbidden_raw_data (bool b) = false
    has_forbidden_raw_data (num n) = false
    has_forbidden_raw_data (str s) = platform.matches_secret s
    has_forbidden_raw_data (arr items) = some_forbidden items
    has_forbidden_raw_data (obj fields) = entry_forbidden fields

    pub some_forbidden : Items → Bool
    some_forbidden nil = false
    some_forbidden (cons value items) = has_forbidden_raw_data value || some_forbidden items

    pub entry_forbidden : Fields → Bool
    entry_forbidden end = false
    entry_forbidden (field key value fields) =
        forbidden_key key || has_forbidden_raw_data value || entry_forbidden fields

  -- The children are sorted, then the entries: a sort by keys does not see the values.
  unfoldable mutual
    pub sort_for_json : Json → Json
    sort_for_json null = null
    sort_for_json (bool b) = bool b
    sort_for_json (num n) = num n
    sort_for_json (str s) = str s
    sort_for_json (arr items) = arr (sort_items items)
    sort_for_json (obj fields) = obj (platform.sort_entries (sort_children fields))

    pub sort_items : Items → Items
    sort_items nil = nil
    sort_items (cons value items) = cons (sort_for_json value) (sort_items items)

    pub sort_children : Fields → Fields
    sort_children end = end
    sort_children (field key value fields) = field key (sort_for_json value) (sort_children fields)

  unfoldable pub stable_stringify : Json → String
  stable_stringify value = platform.json_text (sort_for_json value)

  unfoldable pub stable_hash : Json → String
  stable_hash value = string_append "sha256:" (platform.sha256 (stable_stringify value))

  unfoldable pub byte_length : Json → ℕ
  byte_length value = platform.utf8_length (stable_stringify value)
