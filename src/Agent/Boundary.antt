-- ===== src/Agent/Boundary.antt =====
-- src/agent/result-boundary.ts: from an agent's draft to a request for the merchant's review.
-- The clock's texts are arguments; the audit store is the one in memory.
pub mod Artifacts
pub mod Evaluate
pub mod Gate
pub mod Requests
use data_dyna.Base.{
  ℕ, String, Option, none, some, List, [], ◌∷◌, ◌++◌, map, Bool, true, false, not, ◌&&◌, ◌||◌, ◌==◌,
  string_eq, nat_beq, length, Outcome, ok, thrown, ◌>>=◌, if◌then◌else◌,
}
use data_dyna.Base.Int.{pos}
use Prim.Native.String.{◌++◌ as string_append}
use data_dyna.Contract.{Fields, field, end, Json, Items, cons, nil, str, num, bool, arr}
use data_dyna.Agent.{Numbers, Sorting, unique_sorted}
use data_dyna.Agent.Context.{AgentContextBundle, ContextFailure, parse_context}
use data_dyna.Agent.Plan.{
  InterventionHypothesis, ExperimentPlan, ExperimentUncertainty, ExperimentGuardrail,
  operational_experiment, must_not_degrade, medium, high, draft_truth_status, hypothesis_schema,
  plan_schema,
}
use data_dyna.Agent.Run.{
  AgentRun, AgentDraftOutput, AgentRunStatus, AgentRunEvent, AgentRunEventType,
  draft_validation_evaluated, merchant_review_requested, AgentRunAuditStore, AuditFailure,
  append_event, run_schema,
}
use data_dyna.Agent.Validator.{
  ExperimentValidationDecision, accept, block, needs_more_data, ExperimentValidationReasonCode,
  schema_invalid, decision_text, reason_code_text, ExperimentValidationResult, ResultFailure,
  parse_result, validate_experiment_plan, is_sufficient,
}
use data_dyna.Review.{MerchantReviewActor}
use data_dyna.Review.Submission.{
  SubmittedPlan, SubmissionFailure, submit_experiment_plan_for_merchant_review,
}

pub data BoundaryError : Type 0 where
  run_refused no_captured_draft promoted_draft core_writes_requested : BoundaryError
  identities_differ hypothesis_refused plan_refused gate_not_accepted : BoundaryError
  context_refused : ContextFailure → BoundaryError
  result_refused : ResultFailure → BoundaryError
  audit_failed : AuditFailure → BoundaryError
  submission_refused : SubmissionFailure → BoundaryError

pub data AgentResultBoundaryStatus : Type 0 where
  validated_for_review_request blocked needs_data : AgentResultBoundaryStatus

pub record AgentDraftArtifacts (N : Type 0) : Type 0 where
  pub hypothesis : InterventionHypothesis N
  pub experiment_plan : ExperimentPlan N

pub record AgentDraftResultGate (N : Type 0) : Type 0 where
  pub status : AgentResultBoundaryStatus
  pub validation_result : ExperimentValidationResult
  pub artifacts : Option (AgentDraftArtifacts N)

pub record AgentMerchantReviewRequest (N : Type 0) : Type 0 where
  pub gate : AgentDraftResultGate N
  pub submission : SubmittedPlan N

abbrev pub with_error : {E A : Type 0} → (E → BoundaryError) → Outcome E A → Outcome BoundaryError A
with_error wrap (ok a) = ok a
with_error wrap (thrown x) = thrown (wrap x)

-- `schema.parse` of an object with the schema's fields.
abbrev pub parse_as : {A : Type 0} → Bool → A → BoundaryError → Outcome BoundaryError A
parse_as takes a x = if takes then ok a else thrown x

abbrev pub is_draft_captured : AgentRunStatus → Bool
is_draft_captured AgentRunStatus.draft_captured = true
is_draft_captured AgentRunStatus.started = false
is_draft_captured AgentRunStatus.failed = false

abbrev pub checked_draft : AgentDraftOutput → Outcome BoundaryError AgentDraftOutput
checked_draft d =
    if not (d.truth_status == draft_truth_status)
    then thrown promoted_draft
    else if not (nat_beq d.requested_core_writes 0)
    then thrown core_writes_requested
    else ok d

-- It gives the draft, which the source knows to be there from here on.
unfoldable pub assert_captured_draft : AgentRun → Outcome BoundaryError AgentDraftOutput
assert_captured_draft run = elim run.draft [
  | none ↦ thrown no_captured_draft
  | some d ↦ if is_draft_captured run.status then checked_draft d else thrown no_captured_draft
]

abbrev pub status_for : ExperimentValidationDecision → AgentResultBoundaryStatus
status_for accept = validated_for_review_request
status_for needs_more_data = needs_data
status_for block = blocked

unfoldable pub status_for_validation : ExperimentValidationResult → AgentResultBoundaryStatus
status_for_validation r = status_for r.decision

abbrev event_type_text : AgentRunEventType → String
event_type_text draft_validation_evaluated = "draft_validation_evaluated"
event_type_text _ = "merchant_review_requested"

abbrev text_items : List String → Items
text_items [] = nil
text_items (t ∷ ts) = cons (str t) (text_items ts)

abbrev pub is_validated : AgentResultBoundaryStatus → Bool
is_validated validated_for_review_request = true
is_validated blocked = false
is_validated needs_data = false

unfoldable pub result_event : AgentRun → AgentRunEventType → String → Fields → AgentRunEvent
result_event run event_type occurred_at metadata = record {
  agent_run_event_id = string_append "agent_run_event:" (
      string_append run.agent_run_id (
        string_append ":"
          (string_append (event_type_text event_type) (string_append ":" occurred_at))));
  agent_run_id = run.agent_run_id;
  session_id = run.session_id;
  store_id = run.store_id;
  opportunity_gap_id = run.opportunity_gap_id;
  event_type = event_type;
  occurred_at = occurred_at;
  metadata = metadata;
}

unfoldable pub append_result_event :
    AgentRunAuditStore
    → AgentRun
    → AgentRunEventType
    → (occurred_at : String) → Fields
    → AgentRunAuditStore × Outcome BoundaryError (Unit {0})
append_result_event store run event_type occurred_at metadata =
    let (store', done) = append_event store (result_event run event_type occurred_at metadata) in
    if run_schema run then (store', with_error audit_failed done) else (store, thrown run_refused)

abbrev truth_status_of : Option AgentDraftOutput → String
truth_status_of none = "missing"
truth_status_of (some d) = d.truth_status

unfoldable pub evaluated_metadata : AgentRun → ExperimentValidationResult → Fields
evaluated_metadata run r = field "decision" (str (decision_text r.decision)) (
    field "reasonCodes" (arr (text_items (map reason_code_text r.reason_codes))) (
      field "evidenceRefCount" (num (pos (length r.evidence_refs)))
        (field "truthStatus" (str (truth_status_of run.draft)) end)))

unfoldable pub requested_metadata : {N : Type 0} → SubmittedPlan N → Fields
requested_metadata s = field "reviewId" (str s.submission.review_id) (
    field "reviewStatus" (str "submitted_for_review") (
      field "lifecycleState" (str "drafted") (
        field "evidenceRefCount" (num (pos (length s.submission.evidence_refs))) (
          field "merchantApprovalImplied" (bool false)
            (field "businessMutationCalled" (bool false) end)))))
