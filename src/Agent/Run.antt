-- ===== src/Agent/Run.antt =====
-- src/agent/agent-sidecar.ts: an agent's run, its draft, its events, and the store that audits them.
-- `requestedCoreWrites` is given by its length. `AgentRunSchema` and `AgentRunEventSchema` are tests
-- on records; the map of the store keeps insertion order.
use data_dyna.Base.{
  ℕ, String, Option, none, some, List, [], ◌∷◌, ◌++◌, Bool, true, ◌==◌, string_eq, nat_beq, all,
  Assoc, insert, Outcome, ok, thrown, if◌then◌else◌,
}
use data_dyna.Contract.{Fields}
use data_dyna.Agent.{all_hold, nonempty, nonempty_texts}
use data_dyna.Agent.Plan.{draft_truth_status}

pub data AgentRunStatus : Type 0 where
  started draft_captured failed : AgentRunStatus

pub data AgentRunEventType : Type 0 where
  run_started attempt_loaded policy_evaluated runtime_selected : AgentRunEventType
  harness_invoked tool_call_attempt tool_call_denied : AgentRunEventType
  tool_result_sanitized harness_transcript_event draft_captured : AgentRunEventType
  draft_validation_evaluated merchant_review_requested run_failed : AgentRunEventType

pub data AgentRuntimeMode : Type 0 where
  pi_sdk_adapter unselected : AgentRuntimeMode

pub record AgentRuntimeUsage : Type 0 where
  pub input_tokens : Option ℕ
  pub output_tokens : Option ℕ
  pub total_tokens : Option ℕ
  pub estimated_cost_micros : Option ℕ
  pub currency : Option String

pub record DraftExperimentPlan : Type 0 where
  pub objective : String
  pub measurement_metric_id : String
  pub guardrail_metric_ids : List String
  pub merchant_review_required : Bool

pub record AgentDraftOutput : Type 0 where
  pub truth_status : String
  pub hypothesis : String
  pub reasoning_summary : String
  pub draft_experiment_plan : DraftExperimentPlan
  pub evidence_refs : List String
  pub allowed_draft_operations_used : List String
  pub requested_core_writes : ℕ
  pub disallowed_mutation_targets_acknowledged : List String

pub record AgentRun : Type 0 where
  pub agent_run_id : String
  pub session_id : String
  pub attempt_id : String
  pub brand_id : String
  pub store_id : String
  pub opportunity_gap_id : String
  pub status : AgentRunStatus
  pub started_at : String
  pub completed_at : Option String
  pub provider : String
  pub model : String
  pub profile : String
  pub runtime_mode : AgentRuntimeMode
  pub auth_ref : String
  pub prompt_ref : String
  pub context_seed_hash : String
  pub runtime_usage : Option AgentRuntimeUsage
  pub draft : Option AgentDraftOutput
  pub error_message : Option String
  pub evidence_refs : List String

pub record AgentRunEvent : Type 0 where
  pub agent_run_event_id : String
  pub agent_run_id : String
  pub session_id : String
  pub store_id : String
  pub opportunity_gap_id : String
  pub event_type : AgentRunEventType
  pub occurred_at : String
  pub metadata : Fields

abbrev pub nonempty_if_given : Option String → Bool
nonempty_if_given none = true
nonempty_if_given (some s) = nonempty s

abbrev pub draft_fields : AgentDraftOutput → List Bool
draft_fields d =
    (d.truth_status == draft_truth_status)
    ∷ nonempty d.hypothesis
    ∷ nonempty d.reasoning_summary
    ∷ nonempty d.draft_experiment_plan.objective
    ∷ nonempty d.draft_experiment_plan.measurement_metric_id
    ∷ all nonempty d.draft_experiment_plan.guardrail_metric_ids
    ∷ d.draft_experiment_plan.merchant_review_required
    ∷ all nonempty d.evidence_refs
    ∷ all nonempty d.allowed_draft_operations_used
    ∷ nat_beq d.requested_core_writes 0
    ∷ nonempty_texts d.disallowed_mutation_targets_acknowledged
    ∷ []

-- `AgentDraftOutputSchema`.
unfoldable pub draft_schema : AgentDraftOutput → Bool
draft_schema d = all_hold (draft_fields d)

abbrev pub draft_if_given : Option AgentDraftOutput → Bool
draft_if_given none = true
draft_if_given (some d) = draft_schema d

abbrev pub usage_if_given : Option AgentRuntimeUsage → Bool
usage_if_given none = true
usage_if_given (some u) = nonempty_if_given u.currency

abbrev pub run_fields : AgentRun → List Bool
run_fields r =
    nonempty r.agent_run_id
    ∷ nonempty r.session_id
    ∷ nonempty r.attempt_id
    ∷ nonempty r.brand_id
    ∷ nonempty r.store_id
    ∷ nonempty r.opportunity_gap_id
    ∷ nonempty r.started_at
    ∷ nonempty_if_given r.completed_at
    ∷ nonempty r.provider
    ∷ nonempty r.model
    ∷ nonempty r.profile
    ∷ nonempty r.auth_ref
    ∷ nonempty r.prompt_ref
    ∷ nonempty r.context_seed_hash
    ∷ usage_if_given r.runtime_usage
    ∷ draft_if_given r.draft
    ∷ nonempty_if_given r.error_message
    ∷ all nonempty r.evidence_refs
    ∷ []

-- `AgentRunSchema`.
unfoldable pub run_schema : AgentRun → Bool
run_schema r = all_hold (run_fields r)

abbrev pub event_fields : AgentRunEvent → List Bool
event_fields e =
    nonempty e.agent_run_event_id
    ∷ nonempty e.agent_run_id
    ∷ nonempty e.session_id
    ∷ nonempty e.store_id
    ∷ nonempty e.opportunity_gap_id
    ∷ nonempty e.occurred_at
    ∷ []

-- `AgentRunEventSchema`.
unfoldable pub event_schema : AgentRunEvent → Bool
event_schema e = all_hold (event_fields e)

-- `InMemoryAgentRunAuditStore`.
pub record AgentRunAuditStore : Type 0 where
  pub runs : Assoc String AgentRun
  pub events : List AgentRunEvent

pub data AuditFailure : Type 0 where
  run_rejected event_rejected : AuditFailure

unfoldable pub append_run :
    AgentRunAuditStore → AgentRun → AgentRunAuditStore × Outcome AuditFailure (Unit {0})
append_run store run =
    if run_schema run
    then (record store { runs = insert run.agent_run_id run store.runs }, ok tt)
    else (store, thrown run_rejected)

unfoldable pub append_event :
    AgentRunAuditStore → AgentRunEvent → AgentRunAuditStore × Outcome AuditFailure (Unit {0})
append_event store event =
    if event_schema event
    then (record store { events = store.events ++ event ∷ [] }, ok tt)
    else (store, thrown event_rejected)

unfoldable pub replace_run :
    AgentRunAuditStore → AgentRun → AgentRunAuditStore × Outcome AuditFailure (Unit {0})
replace_run store run =
    if run_schema run
    then (record store { runs = insert run.agent_run_id run store.runs }, ok tt)
    else (store, thrown run_rejected)
