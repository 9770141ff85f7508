-- ===== src/Agent/Sidecar.antt =====
-- src/agent/agent-sidecar.ts: running a prepared attempt.
-- What is outside is the parameter `World`: the clock, dates, numerals, the patterns, the size of
-- a value, the callbacks, the raw tools and the harness. The harness is a tree of tool calls, each of which
-- goes on with what the call gave. Awaited steps run in order. A step gives the state that it leaves
-- and what it returns or throws; an error is its message. Of an attempt, a policy and a runtime,
-- the fields that the run reads are kept.
pub mod Attempt
pub mod Turns
pub mod Tools
pub mod Silence
pub mod Scope
pub mod Results
use data_dyna.Base.{
  ltb, ◌-◌, ℕ, ◌+◌, String, Option, none, some, List, [], ◌∷◌, ◌++◌, Bool, true, false, not, ◌&&◌,
  ◌||◌, ◌==◌, string_eq, nat_beq, any, all, Outcome, ok, thrown, if◌then◌else◌, Eq, nat_eq, ◌≡◌,
  ◌↔◌, arith,
}
use data_dyna.Contract.{Json, Items, Fields}
use data_dyna.Agent.Run.{AgentRunEvent, AgentRunAuditStore, AgentDraftOutput, AgentRuntimeUsage}

pub data AgentReadOnlyToolName : Type 0 where
  read_worker_freshness read_projection_summary read_snapshot_summary : AgentReadOnlyToolName
  read_benchmark_opportunity_gaps read_evidence_records : AgentReadOnlyToolName
  read_dead_letter_diagnosis : AgentReadOnlyToolName

abbrev pub tool_text : AgentReadOnlyToolName → String
tool_text read_worker_freshness = "read_worker_freshness"
tool_text read_projection_summary = "read_projection_summary"
tool_text read_snapshot_summary = "read_snapshot_summary"
tool_text read_benchmark_opportunity_gaps = "read_benchmark_opportunity_gaps"
tool_text read_evidence_records = "read_evidence_records"
tool_text read_dead_letter_diagnosis = "read_dead_letter_diagnosis"

-- `AGENT_RUNTIME_TOOL_NAMES`.
abbrev pub agent_runtime_tool_names : List AgentReadOnlyToolName
agent_runtime_tool_names =
    read_worker_freshness ∷ read_projection_summary ∷ read_snapshot_summary
    ∷ read_benchmark_opportunity_gaps ∷ read_evidence_records ∷ read_dead_letter_diagnosis ∷ []

-- Names are compared as texts.
abbrev pub names_tool : List AgentReadOnlyToolName → String → Bool
names_tool tools name = any (λ tool. tool_text tool == name) tools

pub data PreparedAttemptStatus : Type 0 where
  prepared blocked_missing_freshness blocked_stale_freshness : PreparedAttemptStatus
  blocked_dead_letter blocked_tenant_mismatch blocked_policy : PreparedAttemptStatus

abbrev pub status_text : PreparedAttemptStatus → String
status_text prepared = "prepared"
status_text blocked_missing_freshness = "blocked_missing_freshness"
status_text blocked_stale_freshness = "blocked_stale_freshness"
status_text blocked_dead_letter = "blocked_dead_letter"
status_text blocked_tenant_mismatch = "blocked_tenant_mismatch"
status_text blocked_policy = "blocked_policy"

-- The seed is given by its evidence refs.
pub record PreparedAgentAttempt : Type 0 where
  pub attempt_id : String
  pub agent_run_id : String
  pub session_id : String
  pub brand_id : String
  pub store_id : String
  pub opportunity_gap_id : String
  pub status : PreparedAttemptStatus
  pub tool_catalog_version : String
  pub max_tool_result_bytes : ℕ
  pub allowed_read_capabilities : List AgentReadOnlyToolName
  pub forbidden_capabilities : List String
  pub freshness_ref_count : ℕ
  pub context_seed : Option (List String)
  pub context_seed_hash : Option String

pub record AgentAttemptPrompt : Type 0 where
  pub prompt_ref : String
  pub system_instructions : String

pub record AgentRuntimePolicy : Type 0 where
  pub tool_catalog_version : String
  pub allowed_tool_names : List AgentReadOnlyToolName

pub record SelectedAgentRuntimeConfig : Type 0 where
  pub provider : String
  pub model : String
  pub profile : String
  pub auth_ref : String

pub data TranscriptKind : Type 0 where
  tool_call tool_result reasoning_summary draft_emitted : TranscriptKind

abbrev pub transcript_kind_text : TranscriptKind → String
transcript_kind_text tool_call = "tool_call"
transcript_kind_text tool_result = "tool_result"
transcript_kind_text reasoning_summary = "reasoning_summary"
transcript_kind_text draft_emitted = "draft_emitted"

pub record AgentHarnessTranscriptEvent : Type 0 where
  pub type : TranscriptKind
  pub tool_name : Option AgentReadOnlyToolName
  pub summary : String

pub record AgentHarnessTurnResult : Type 0 where
  pub draft : AgentDraftOutput
  pub transcript : List AgentHarnessTranscriptEvent
  pub runtime_usage : Option AgentRuntimeUsage

-- What a harness does with its tools, until it returns or throws.
pub data Turn : Type 0 where
  returns : AgentHarnessTurnResult → Turn
  fails : (message : String) → Turn
  calls : AgentReadOnlyToolName → Json → (Outcome String Json → Turn) → Turn

-- The patterns that `redactText` replaces, in its order.
pub data Redaction : Type 0 where
  bearer_token secret_entry customer_entry raw_payload api_key : Redaction

-- A date is its milliseconds since the earliest one; a text that is no date has none.
pub record World : Type 0 where
  pub now : ℕ → String
  pub decimal : ℕ → String
  pub parse_date : String → Option ℕ
  pub replace_all : Redaction → String → String
  pub contains_sensitive_text : String → Bool
  pub byte_length : Json → ℕ
  pub schema_message : String
  pub on_audit_event : AgentRunEvent → Option String
  pub on_transcript_event : AgentHarnessTranscriptEvent → Option String
  pub call_tool : AgentReadOnlyToolName → Json → Outcome String Json
  pub run_turn : Turn

abbrev pub redact_text : World → String → String
redact_text world value = world.replace_all api_key (
    world.replace_all raw_payload (
      world.replace_all customer_entry
        (world.replace_all secret_entry (world.replace_all bearer_token value))))

abbrev between : Option ℕ → Option ℕ → ℕ
between none completed = 0
between (some started) none = 0
between (some started) (some completed) = if ltb completed started then 0 else completed - started

abbrev pub elapsed_ms : World → (started_at completed_at : String) → ℕ
elapsed_ms world started_at completed_at =
    between (world.parse_date started_at) (world.parse_date completed_at)

-- What is not there, or is not a function, is `none` or `false`.
pub record RunAgentAttemptInput : Type 0 where
  pub prepared_attempt : PreparedAgentAttempt
  pub prompt : AgentAttemptPrompt
  pub exposed_functions : Option (List String)
  pub policy : AgentRuntimePolicy
  pub runtime : SelectedAgentRuntimeConfig
  pub has_harness : Bool
  pub has_callbacks : Bool

-- The audit store, the events of the run, how often the clock was read, and the raw tools called.
pub record Audit : Type 0 where
  pub store : AgentRunAuditStore
  pub events : List AgentRunEvent
  pub ticks : ℕ
  pub called : List AgentReadOnlyToolName

abbrev pub Act : Type 0 → Type 0
Act A = Audit → Audit × Outcome String A

abbrev pub continue_with :
    {A B : Type 0} → (A → Act B) → Audit × Outcome String A → Audit × Outcome String B
continue_with next (s, ok a) = next a s
continue_with next (s, thrown x) = (s, thrown x)

infixl 5 ◌>>=◌ ◌>>◌
unfoldable pub ◌>>=◌ : {A B : Type 0} → Act A → (A → Act B) → Act B
◌>>=◌ step next s = continue_with next (step s)

unfoldable pub ◌>>◌ : {B : Type 0} → Act (Unit {0}) → Act B → Act B
step >> next = step >>= λ _. next

unfoldable pub give : {A : Type 0} → A → Act A
give a s = (s, ok a)

unfoldable pub throw : {A : Type 0} → String → Act A
throw message s = (s, thrown message)

-- `if (bad) throw new Error(message)`.
unfoldable pub throw_if : Bool → String → Act (Unit {0})
throw_if true message s = (s, thrown message)
throw_if false message s = (s, ok tt)

unfoldable pub lift : {A : Type 0} → Outcome String A → Act A
lift o s = (s, o)

-- `try` and `catch`.
abbrev pub caught :
    {A : Type 0} → (String → Act A) → Audit × Outcome String A → Audit × Outcome String A
caught handler (s, ok a) = (s, ok a)
caught handler (s, thrown x) = handler x s

abbrev pub resumed :
    {A B : Type 0}
    → (Outcome String A → Act B)
    → Audit × Outcome String A
    → Audit × Outcome String B
resumed next (s, o) = next o s

-- What a callback does: nothing, or it throws.
abbrev pub told : Option String → Outcome String (Unit {0})
told none = ok tt
told (some message) = thrown message
