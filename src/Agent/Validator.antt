-- ===== src/Agent/Validator.antt =====
-- src/agent/experiment-validator.ts: the decision on a hypothesis and a plan.
-- An `unknown` value is `none` if it lacks the fields of the schema. The context that is given is
-- typed. The lists that the checks push to are what each check adds, a code with its message.
pub mod Codes
pub mod Decides
use data_dyna.Base.{
  ℕ, String, Option, none, some, List, [], ◌∷◌, ◌++◌, map, Bool, true, false, not, ◌&&◌, ◌||◌, ◌==◌,
  string_eq, nat_beq, all, any, select, length, Outcome, ok, thrown, if◌then◌else◌, Eq, nat_eq, ◌≡◌,
  ◌↔◌, arith,
}
use data_dyna.Agent.{Numbers, Sorting, nonempty, includes}
use data_dyna.Agent.Context.{
  AgentContextBundle, PeerSampleStatus, sufficient, weak_sample, insufficient_sample,
  ContextFailure, parse_context,
}
use data_dyna.Agent.Plan.{
  InterventionHypothesis, ExperimentPlan, ExperimentGuardrail, draft_truth_status,
  hypothesis_schema, plan_schema,
}

pub data ExperimentValidationDecision : Type 0 where
  accept block needs_more_data : ExperimentValidationDecision

pub data ExperimentValidationReasonCode : Type 0 where
  schema_invalid identity_mismatch missing_evidence_refs : ExperimentValidationReasonCode
  evidence_refs_not_from_context : ExperimentValidationReasonCode
  missing_uncertainty_or_confidence : ExperimentValidationReasonCode
  merchant_confirmation_required rollback_required : ExperimentValidationReasonCode
  guardrail_required weak_or_insufficient_sample : ExperimentValidationReasonCode
  agent_draft_not_truth core_write_requested : ExperimentValidationReasonCode

-- The place of a code in its declaration, for comparisons.
abbrev code_index : ExperimentValidationReasonCode → ℕ
code_index schema_invalid = 0
code_index identity_mismatch = 1
code_index missing_evidence_refs = 2
code_index evidence_refs_not_from_context = 3
code_index missing_uncertainty_or_confidence = 4
code_index merchant_confirmation_required = 5
code_index rollback_required = 6
code_index guardrail_required = 7
code_index weak_or_insufficient_sample = 8
code_index agent_draft_not_truth = 9
code_index core_write_requested = 10

abbrev pub code_beq : ExperimentValidationReasonCode → ExperimentValidationReasonCode → Bool
code_beq a b = nat_beq (code_index a) (code_index b)

abbrev pub decision_text : ExperimentValidationDecision → String
decision_text accept = "accept"
decision_text block = "block"
decision_text needs_more_data = "needs_more_data"

abbrev pub reason_code_text : ExperimentValidationReasonCode → String
reason_code_text schema_invalid = "schema_invalid"
reason_code_text identity_mismatch = "identity_mismatch"
reason_code_text missing_evidence_refs = "missing_evidence_refs"
reason_code_text evidence_refs_not_from_context = "evidence_refs_not_from_context"
reason_code_text missing_uncertainty_or_confidence = "missing_uncertainty_or_confidence"
reason_code_text merchant_confirmation_required = "merchant_confirmation_required"
reason_code_text rollback_required = "rollback_required"
reason_code_text guardrail_required = "guardrail_required"
reason_code_text weak_or_insufficient_sample = "weak_or_insufficient_sample"
reason_code_text agent_draft_not_truth = "agent_draft_not_truth"
reason_code_text core_write_requested = "core_write_requested"

-- `[...new Set(codes)]`.
unfoldable pub unique_codes :
    List ExperimentValidationReasonCode → List ExperimentValidationReasonCode
unique_codes [] = []
unique_codes (c ∷ cs) = c ∷ select (λ d. not (code_beq d c)) (unique_codes cs)

pub record ExperimentValidationResult : Type 0 where
  pub decision : ExperimentValidationDecision
  pub reason_codes : List ExperimentValidationReasonCode
  pub messages : List String
  pub evidence_refs : List String

abbrev pub Reason : Type 0
Reason = ExperimentValidationReasonCode × String

abbrev pub reason_if : Bool → ExperimentValidationReasonCode → String → List Reason
reason_if b code message = if b then (code, message) ∷ [] else []

-- `ExperimentValidationResultSchema`.
unfoldable pub result_schema : ExperimentValidationResult → Bool
result_schema r = all nonempty r.messages && all nonempty r.evidence_refs

pub data ResultFailure : Type 0 where
  result_rejected : ResultFailure

abbrev pub parse_result :
    ExperimentValidationResult → Outcome ResultFailure ExperimentValidationResult
parse_result r = if result_schema r then ok r else thrown result_rejected

unfoldable pub result :
    ExperimentValidationDecision
    → List Reason
    → (messages evidence_refs : List String) → Outcome ResultFailure ExperimentValidationResult
unfolding result_schema unique_codes
result decision reasons messages evidence_refs = parse_result (record {
  decision = decision;
  reason_codes = unique_codes (map (λ reason. reason.0) reasons);
  messages = messages;
  evidence_refs = evidence_refs;
})

unfoldable pub has_blocking_reason : List Reason → Bool
has_blocking_reason reasons =
    any (λ reason. not (code_beq reason.0 weak_or_insufficient_sample)) reasons

abbrev pub guardrail_refs : List ExperimentGuardrail → List String
guardrail_refs [] = []
guardrail_refs (g ∷ gs) = g.evidence_refs ++ guardrail_refs gs

abbrev pub is_sufficient : PeerSampleStatus → Bool
is_sufficient sufficient = true
is_sufficient weak_sample = false
is_sufficient insufficient_sample = false

abbrev is_empty : {A : Type 0} → List A → Bool
is_empty xs = nat_beq (length xs) 0

abbrev differs : (hypothesis plan context : String) → Bool
differs hypothesis plan context = not (hypothesis == context) || not (plan == context)

module _ {N : Type 0} (num : Numbers N) (context : AgentContextBundle N)
    (hypothesis : InterventionHypothesis N) (plan : ExperimentPlan N) where
  unfoldable pub check_identity : List Reason
  check_identity =
      reason_if (differs hypothesis.agent_run_id plan.agent_run_id context.agent_run_id)
        identity_mismatch "agentRunId must match the AgentContextBundle."
      ++ (reason_if (differs hypothesis.brand_id plan.brand_id context.brand_id) identity_mismatch
            "brandId must match the AgentContextBundle."
          ++ (reason_if (differs hypothesis.store_id plan.store_id context.store_id)
                identity_mismatch "storeId must match the AgentContextBundle."
              ++ (reason_if
                    (differs hypothesis.opportunity_gap_id plan.opportunity_gap_id
                      context.opportunity_gap_id)
                    identity_mismatch "opportunityGapId must match the AgentContextBundle."
                  ++ reason_if (not (plan.hypothesis_id == hypothesis.hypothesis_id))
                      identity_mismatch
                      "experimentPlan.hypothesisId must match hypothesis.hypothesisId.")))

  unfoldable pub check_truth_boundary : List Reason
  check_truth_boundary =
      reason_if
        (not (hypothesis.truth_status == draft_truth_status)
          || not (plan.truth_status == draft_truth_status))
        agent_draft_not_truth "Agent output must remain a draft and not Core truth."
      ++ reason_if
          (not (nat_beq hypothesis.requested_core_writes 0)
            || not (nat_beq plan.requested_core_writes 0))
          core_write_requested "Experiment drafts must not request deterministic Core writes."

  abbrev all_refs : List String
  all_refs =
      hypothesis.evidence_refs ++ (plan.evidence_refs ++ guardrail_refs plan.measurement.guardrails)

  abbrev unknown_refs : List String
  unknown_refs = select (λ ref. not (includes context.evidence_refs ref)) all_refs

  unfoldable pub check_evidence_refs : List Reason
  check_evidence_refs =
      if is_empty hypothesis.evidence_refs || is_empty plan.evidence_refs
      then (missing_evidence_refs, "Hypothesis and experiment plan must include evidenceRefs.") ∷ []
      else reason_if (not (is_empty unknown_refs)) evidence_refs_not_from_context
          "Evidence refs must come from the deterministic AgentContextBundle."

  unfoldable pub check_uncertainty : List Reason
  check_uncertainty =
      reason_if
        (num.le hypothesis.uncertainty.confidence num.nought
          || num.le plan.uncertainty.confidence num.nought)
        missing_uncertainty_or_confidence
        "Hypothesis and plan must include positive confidence in uncertainty fields."

  unfoldable pub check_safety : List Reason
  check_safety =
      reason_if (not plan.safety.merchant_confirmation_required) merchant_confirmation_required
        "Merchant confirmation is required before any business action."
      ++ (reason_if (not plan.safety.rollback_supported) rollback_required
            "Rollback support is required for this validator boundary."
          ++ reason_if (is_empty plan.measurement.guardrails) guardrail_required
              "At least one guardrail is required.")

  unfoldable pub check_reasons : List Reason
  check_reasons =
      check_identity
      ++ (check_truth_boundary ++ (check_evidence_refs ++ (check_uncertainty ++ check_safety)))

  -- What follows the checks.
  unfoldable pub decide_on : List Reason → Outcome ResultFailure ExperimentValidationResult
  decide_on reasons =
      let messages = map (λ reason. reason.1) reasons in
      let weak : String =
        "Opportunity gap peer sample is not sufficient for a validated launch decision." in
      if has_blocking_reason reasons
      then result block reasons messages plan.evidence_refs
      else if not (is_sufficient context.opportunity_gap.sample_status)
      then result needs_more_data (reasons ++ (weak_or_insufficient_sample, weak) ∷ [])
          (messages ++ weak ∷ []) plan.evidence_refs
      else result accept reasons ("Experiment plan passed deterministic validation." ∷ [])
          plan.evidence_refs

  unfoldable pub decide_parsed : Outcome ResultFailure ExperimentValidationResult
  decide_parsed = decide_on check_reasons

abbrev pub parsed : {A : Type 0} → (A → Bool) → Option A → Option A
parsed schema none = none
parsed schema (some a) = if schema a then some a else none

module _ {N : Type 0} (sorting : Sorting) (num : Numbers N) where
  abbrev pub schema_failure : List String → Outcome ResultFailure ExperimentValidationResult
  schema_failure refs =
      let message : String =
        "Context, hypothesis, and experiment plan must satisfy deterministic schemas." in
      result block ((schema_invalid, message) ∷ []) (message ∷ []) refs

  -- The test of the three parses, and what follows it.
  unfoldable pub judge_parsed :
      Outcome ContextFailure (AgentContextBundle N)
      → Option (InterventionHypothesis N)
      → Option (ExperimentPlan N)
      → Outcome ResultFailure ExperimentValidationResult
  judge_parsed (thrown x) hypothesis plan = schema_failure []
  judge_parsed (ok context) none plan = schema_failure context.evidence_refs
  judge_parsed (ok context) (some h) none = schema_failure context.evidence_refs
  judge_parsed (ok context) (some h) (some p) = decide_parsed num context h p

  unfoldable pub validate_experiment_plan :
      AgentContextBundle N
      → Option (InterventionHypothesis N)
      → Option (ExperimentPlan N)
      → Outcome ResultFailure ExperimentValidationResult
  unfolding judge_parsed
  validate_experiment_plan context hypothesis plan =
      judge_parsed (parse_context sorting num context) (parsed (hypothesis_schema num) hypothesis)
        (parsed (plan_schema num) plan)
