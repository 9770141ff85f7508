-- ===== src/Agent/Boundary/Evaluate.antt =====
-- The gate of a draft, and the request for review, in src/agent/result-boundary.ts.
use data_dyna.Base.{
  String, Option, none, some, [], ◌∷◌, Bool, string_eq, Outcome, ok, thrown, ◌>>=◌, if◌then◌else◌,
}
use data_dyna.Agent.{Numbers, Sorting}
use data_dyna.Agent.Context.{AgentContextBundle, parse_context}
use data_dyna.Agent.Run.{
  AgentRun, draft_validation_evaluated, merchant_review_requested, AgentRunAuditStore, run_schema,
}
use data_dyna.Agent.Validator.{
  block, schema_invalid, ExperimentValidationResult, ResultFailure, parse_result,
  validate_experiment_plan,
}
use data_dyna.Review.{MerchantReviewActor}
use data_dyna.Review.Submission.{SubmittedPlan, submit_experiment_plan_for_merchant_review}
use data_dyna.Agent.Boundary.{
  is_validated, BoundaryError, run_refused, gate_not_accepted, context_refused, result_refused,
  submission_refused, AgentResultBoundaryStatus, AgentDraftArtifacts, AgentDraftResultGate,
  AgentMerchantReviewRequest, with_error, parse_as, assert_captured_draft, status_for_validation,
  append_result_event, evaluated_metadata, requested_metadata,
}
use data_dyna.Agent.Boundary.Artifacts.{build_agent_draft_artifacts}

module _ {N : Type 0} (sorting : Sorting) (number : Numbers N) where
  unfoldable pub schema_block :
      AgentContextBundle N → Outcome ResultFailure ExperimentValidationResult
  schema_block context = parse_result (record {
    decision = block;
    reason_codes = schema_invalid ∷ [];
    messages = "Agent draft did not satisfy deterministic result artifact schemas." ∷ [];
    evidence_refs = context.evidence_refs;
  })

  abbrev pub or_block :
      AgentContextBundle N
      → Outcome ResultFailure ExperimentValidationResult
      → Outcome ResultFailure ExperimentValidationResult
  or_block context (ok r) = ok r
  or_block context (thrown x) = schema_block context

  abbrev pub Judged : Type 0
  Judged = Option (AgentDraftArtifacts N) × Outcome ResultFailure ExperimentValidationResult

  -- The `try` and the `catch` around building and validating.
  unfoldable pub judge_artifacts :
      AgentContextBundle N → Outcome BoundaryError (AgentDraftArtifacts N) → Judged
  judge_artifacts context (thrown x) = (none, schema_block context)
  judge_artifacts context (ok a) = (
    some a,
    or_block context (
        validate_experiment_plan sorting number context (some a.hypothesis)
          (some a.experiment_plan)),
  )

  unfoldable pub gate_of :
      AgentRunAuditStore
      → AgentRun
      → (now : String) → Judged
      → AgentRunAuditStore × Outcome BoundaryError (AgentDraftResultGate N)
  gate_of store run now (artifacts, thrown x) = (store, thrown (result_refused x))
  gate_of store run now (artifacts, ok r) =
      let (store', appended) =
        append_result_event store run draft_validation_evaluated now (evaluated_metadata run r) in
      (
        store',
        appended >>= λ _. ok (record {
          status = status_for_validation r;
          validation_result = r;
          artifacts = artifacts;
        }),
      )

  unfoldable pub parse_input :
      AgentRun → AgentContextBundle N → Outcome BoundaryError (AgentRun × AgentContextBundle N)
  parse_input run_input context_input = do
    run ← parse_as (run_schema run_input) run_input run_refused
    context ← with_error context_refused (parse_context sorting number context_input)
    _ ← assert_captured_draft run
    ok (run, context)

  unfoldable pub gate_of_parsed :
      AgentRunAuditStore
      → (now : String) → Outcome BoundaryError (AgentRun × AgentContextBundle N)
      → AgentRunAuditStore × Outcome BoundaryError (AgentDraftResultGate N)
  gate_of_parsed store now (thrown x) = (store, thrown x)
  gate_of_parsed store now (ok (run, context)) =
      gate_of store run now
        (judge_artifacts context (build_agent_draft_artifacts sorting number run context))

  unfoldable pub evaluate_agent_draft_result_gate :
      AgentRunAuditStore
      → AgentRun
      → AgentContextBundle N
      → (now : String) → AgentRunAuditStore × Outcome BoundaryError (AgentDraftResultGate N)
  evaluate_agent_draft_result_gate store run context now =
      gate_of_parsed store now (parse_input run context)

  -- The artifacts of a gate that may go on.
  abbrev pub passed :
      AgentResultBoundaryStatus
      → Option (AgentDraftArtifacts N)
      → Outcome BoundaryError (AgentDraftArtifacts N)
  passed status none = thrown gate_not_accepted
  passed status (some a) = if is_validated status then ok a else thrown gate_not_accepted

  unfoldable pub announce :
      AgentRunAuditStore
      → AgentRun
      → (now : String) → AgentDraftResultGate N
      → Outcome BoundaryError (SubmittedPlan N)
      → AgentRunAuditStore × Outcome BoundaryError (AgentMerchantReviewRequest N)
  announce store run now gate (thrown x) = (store, thrown x)
  announce store run now gate (ok s) =
      let (store', appended) =
        append_result_event store run merchant_review_requested now (requested_metadata s) in
      (store', appended >>= λ _. ok (record { gate = gate; submission = s }))

  module _ (is_iso_date : String → Bool) (run : AgentRun) (review_id submitted_at : String)
      (submitted_by : Option MerchantReviewActor) (evaluated_at requested_at : String) where
    unfoldable pub submitted_of : AgentDraftResultGate N → Outcome BoundaryError (SubmittedPlan N)
    submitted_of gate = passed gate.status gate.artifacts >>= λ a. with_error submission_refused (
        submit_experiment_plan_for_merchant_review number is_iso_date review_id a.experiment_plan
          gate.validation_result submitted_at submitted_by)

    unfoldable pub request_on_gate :
        AgentRunAuditStore × Outcome BoundaryError (AgentDraftResultGate N)
        → AgentRunAuditStore × Outcome BoundaryError (AgentMerchantReviewRequest N)
    request_on_gate (store, thrown x) = (store, thrown x)
    request_on_gate (store, ok gate) = announce store run requested_at gate (submitted_of gate)

    -- The clock is read for each of the two events.
    unfoldable pub request_merchant_review_for_agent_draft :
        AgentRunAuditStore
        → AgentContextBundle N
        → AgentRunAuditStore × Outcome BoundaryError (AgentMerchantReviewRequest N)
    request_merchant_review_for_agent_draft store context =
        request_on_gate (evaluate_agent_draft_result_gate store run context evaluated_at)
