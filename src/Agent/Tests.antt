-- ===== src/Agent/Tests.antt =====
-- The theorems on drafts and their review at a concrete draft, with percents for numbers.
use data_dyna.Review.Submission.{
  submitted_plan, submit_experiment_plan_for_merchant_review, submission_schema, submission_issues,
  check_plan_identity, actor_schema,
}
use data_dyna.Agent.Boundary.{
  status_for_validation, result_event, requested_metadata, evaluated_metadata,
  assert_captured_draft, append_result_event,
}
use data_dyna.Base.{
  ℕ, none, some, [], ◌∷◌, Bool, true, false, ◌≡◌, refl, ok, thrown, leb, if◌then◌else◌, string_eq,
  Outcome,
}
use data_dyna.Agent.{unique_sorted, unique, same_strings, Numbers, Sorting, MetricWindow}
use data_dyna.Agent.Context.{
  parse_context, gap_schema, context_issues, AgentOpportunityGapFact, AgentContextBundle,
  GuardrailRelation, GapComparisonBasis, GapDirection, PeerSampleStatus, BenchmarkInterpretation,
  built_bundle, build_agent_context_bundle, bundle_schema, plain_rejected,
}
use data_dyna.Agent.Context.Builds.{build_agent_context_bundle_lem}
use data_dyna.Agent.Plan.{uncertainty_schema, plan_schema, hypothesis_schema, guardrail_schema}
use data_dyna.Agent.Run.{
  run_schema, event_schema, draft_schema, append_event, AgentRun, AgentRunStatus, AgentRuntimeMode,
  AgentDraftOutput, AgentRunAuditStore,
}
use data_dyna.Agent.Validator.{
  unique_codes, result_schema, result, judge_parsed, has_blocking_reason, decide_parsed, decide_on,
  check_uncertainty, check_truth_boundary, check_safety, check_reasons, check_identity,
  check_evidence_refs, ExperimentValidationResult, validate_experiment_plan,
}
use data_dyna.Agent.Validator.Decides.{Verdict, validate_experiment_plan-Verdict}
use data_dyna.Agent.Boundary.Artifacts.{
  draft_uncertainty, build_agent_draft_artifacts, draft_hypothesis, draft_plan,
}
use data_dyna.Agent.Boundary.Evaluate.{
  submitted_of, schema_block, request_on_gate, parse_input, judge_artifacts, gate_of_parsed,
  gate_of, evaluate_agent_draft_result_gate, announce, request_merchant_review_for_agent_draft,
}
use data_dyna.Agent.Boundary.Requests.{Requested, request_merchant_review_for_agent_draft-Requested}

abbrev percents : Numbers ℕ
percents = record { le = leb; nought = 0; one = 100; medium_confidence = 65; confidence_cap = 80 }

-- The lists here are sorted.
abbrev sorted : Sorting
sorted = record { sort = λ ts. ts; count-sort = λ s ts. refl; sort-sort = λ ts. refl }

abbrev refund_gap : PeerSampleStatus → AgentOpportunityGapFact ℕ
refund_gap sample_status = record {
  opportunity_gap_id = "g1";
  brand_id = "b1";
  store_id = "s1";
  snapshot_date = "2026-01-01";
  segment_candidate_id = "c1";
  metric_id = "refund_rate";
  metric_window = MetricWindow.snapshot;
  guardrail_relation = GuardrailRelation.negative_guardrail;
  target_value = 9;
  peer_median_value = some 5;
  peer_p75_value = some 3;
  comparison_basis = GapComparisonBasis.peer_median;
  direction = GapDirection.lower_is_better;
  gap_value = 4;
  gap_ratio = none;
  rank = some 1;
  confidence = 90;
  sample_status = sample_status;
  interpretation = BenchmarkInterpretation.directional_non_causal_gap;
  evidence_refs = "r1" ∷ "r2" ∷ [];
}

abbrev context : PeerSampleStatus → AgentContextBundle ℕ
context sample_status =
    built_bundle sorted "a1" "n1" (refund_gap sample_status) "t0" none none (some ("menu" ∷ []))

abbrev draft : AgentDraftOutput
draft = record {
  truth_status = "agent_draft_not_core_truth";
  hypothesis = "Wrong orders cause refunds.";
  reasoning_summary = "Refunds follow long queues.";
  draft_experiment_plan = record {
    objective = "Fewer refunds";
    measurement_metric_id = "refund_rate";
    guardrail_metric_ids = "avg_order_value" ∷ [];
    merchant_review_required = true;
  };
  evidence_refs = "r1" ∷ "r1" ∷ [];
  allowed_draft_operations_used = [];
  requested_core_writes = 0;
  disallowed_mutation_targets_acknowledged = "menu" ∷ [];
}

abbrev run : AgentRun
run = record {
  agent_run_id = "a1";
  session_id = "n1";
  attempt_id = "at1";
  brand_id = "b1";
  store_id = "s1";
  opportunity_gap_id = "g1";
  status = AgentRunStatus.draft_captured;
  started_at = "t0";
  completed_at = some "t1";
  provider = "p";
  model = "m";
  profile = "f";
  runtime_mode = AgentRuntimeMode.pi_sdk_adapter;
  auth_ref = "auth";
  prompt_ref = "prompt";
  context_seed_hash = "hash";
  runtime_usage = none;
  draft = some draft;
  error_message = none;
  evidence_refs = "r1" ∷ [];
}

abbrev no_audit : AgentRunAuditStore
no_audit = record { runs = []; events = [] }

build_agent_context_bundle_lem_example :
    build_agent_context_bundle sorted percents "a1" "n1"
      (refund_gap PeerSampleStatus.sufficient)
      "t0"
      none
      none
      (some ("menu" ∷ []))
    ≡ (if bundle_schema percents (context PeerSampleStatus.sufficient)
        then ok (context PeerSampleStatus.sufficient)
        else thrown plain_rejected)
build_agent_context_bundle_lem_example =
    build_agent_context_bundle_lem sorted percents "a1" "n1"
      (refund_gap PeerSampleStatus.sufficient) "t0" none none (some ("menu" ∷ []))

validate_experiment_plan-Verdict_example :
    let c = context PeerSampleStatus.weak_sample in
    let h = draft_hypothesis sorted percents run c draft in
    let p = draft_plan sorted percents run c draft in
    (r : ExperimentValidationResult) × (validate_experiment_plan sorted percents c (some h) (some p)
      ≡ ok r)
    × Verdict sorted percents c (some h) (some p) r.decision
validate_experiment_plan-Verdict_example =
    validate_experiment_plan-Verdict sorted percents (context PeerSampleStatus.weak_sample)
      (some (draft_hypothesis sorted percents run (context PeerSampleStatus.weak_sample) draft))
      (some (draft_plan sorted percents run (context PeerSampleStatus.weak_sample) draft))

request_merchant_review_for_agent_draft-Requested_example :
    Requested sorted percents
      (λ _. true)
      run
      "v1"
      "t2"
      none
      "t3"
      "t4"
      no_audit
      (context PeerSampleStatus.sufficient)
      (request_merchant_review_for_agent_draft sorted percents
        (λ _. true)
        run
        "v1"
        "t2"
        none
        "t3"
        "t4"
        no_audit
        (context PeerSampleStatus.sufficient))
request_merchant_review_for_agent_draft-Requested_example =
    request_merchant_review_for_agent_draft-Requested sorted percents (λ _. true) run "v1" "t2" none
      "t3" "t4" no_audit (context PeerSampleStatus.sufficient)

abbrev returns : {E A : Type 0} → Outcome E A → Bool
returns (ok a) = true
returns (thrown x) = false

-- The draft is requested for review, and on a weak sample it is not.
requests :
    returns
      (request_merchant_review_for_agent_draft sorted percents
        (λ _. true)
        run
        "v1"
        "t2"
        none
        "t3"
        "t4"
        no_audit
        (context PeerSampleStatus.sufficient)).1
    ≡ true
unfolding actor_schema announce append_event append_result_event assert_captured_draft
    build_agent_draft_artifacts built_bundle bundle_schema check_evidence_refs check_identity
    check_plan_identity check_reasons check_safety check_truth_boundary check_uncertainty
    context_issues decide_on decide_parsed draft_hypothesis draft_plan draft_schema
    draft_uncertainty evaluate_agent_draft_result_gate evaluated_metadata event_schema gap_schema
    gate_of gate_of_parsed guardrail_schema has_blocking_reason hypothesis_schema judge_artifacts
    judge_parsed parse_context parse_input plan_schema request_merchant_review_for_agent_draft
    request_on_gate requested_metadata result result_event result_schema run_schema same_strings
    schema_block status_for_validation submission_issues submission_schema
    submit_experiment_plan_for_merchant_review submitted_of submitted_plan uncertainty_schema unique
    unique_codes unique_sorted validate_experiment_plan
requests = refl

weak_sample_waits :
    returns
      (request_merchant_review_for_agent_draft sorted percents
        (λ _. true)
        run
        "v1"
        "t2"
        none
        "t3"
        "t4"
        no_audit
        (context PeerSampleStatus.weak_sample)).1
    ≡ false
unfolding actor_schema announce append_event append_result_event assert_captured_draft
    build_agent_draft_artifacts built_bundle bundle_schema check_evidence_refs check_identity
    check_plan_identity check_reasons check_safety check_truth_boundary check_uncertainty
    context_issues decide_on decide_parsed draft_hypothesis draft_plan draft_schema
    draft_uncertainty evaluate_agent_draft_result_gate evaluated_metadata event_schema gap_schema
    gate_of gate_of_parsed guardrail_schema has_blocking_reason hypothesis_schema judge_artifacts
    judge_parsed parse_context parse_input plan_schema request_merchant_review_for_agent_draft
    request_on_gate requested_metadata result result_event result_schema run_schema same_strings
    schema_block status_for_validation submission_issues submission_schema
    submit_experiment_plan_for_merchant_review submitted_of submitted_plan uncertainty_schema unique
    unique_codes unique_sorted validate_experiment_plan
weak_sample_waits = refl
