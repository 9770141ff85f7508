-- ===== src/Agent/Boundary/Artifacts.antt =====
-- The hypothesis and the plan that src/agent/result-boundary.ts makes of a draft.
use data_dyna.Base.{
  String, List, [], ◌∷◌, map, Bool, true, ◌&&◌, ◌==◌, string_eq, Outcome, ok, ◌>>=◌, if◌then◌else◌,
}
use Prim.Native.String.{◌++◌ as string_append}
use data_dyna.Agent.{Numbers, Sorting, unique_sorted}
use data_dyna.Agent.Context.{AgentContextBundle, parse_context}
use data_dyna.Agent.Plan.{
  InterventionHypothesis, ExperimentPlan, ExperimentUncertainty, ExperimentGuardrail,
  operational_experiment, must_not_degrade, medium, high, draft_truth_status, hypothesis_schema,
  plan_schema,
}
use data_dyna.Agent.Run.{AgentRun, AgentDraftOutput, run_schema}
use data_dyna.Agent.Validator.{is_sufficient}
use data_dyna.Agent.Boundary.{
  BoundaryError, run_refused, identities_differ, hypothesis_refused, plan_refused, context_refused,
  AgentDraftArtifacts, with_error, parse_as, assert_captured_draft,
}

module _ {N : Type 0} (sorting : Sorting) (number : Numbers N) where
  unfoldable pub draft_uncertainty :
      AgentContextBundle N → AgentDraftOutput → ExperimentUncertainty N
  draft_uncertainty context draft =
      let gap = context.opportunity_gap in
      record {
        level =
            if number.le number.medium_confidence gap.confidence && is_sufficient gap.sample_status
            then medium
            else high;
        confidence =
            if number.le gap.confidence number.confidence_cap
            then gap.confidence
            else number.confidence_cap;
        assumptions = draft.reasoning_summary ∷ context.assumptions;
      }

  abbrev pub hypothesis_id_of : AgentRun → String
  hypothesis_id_of run = string_append "intervention_hypothesis:" run.agent_run_id

  unfoldable pub draft_hypothesis :
      AgentRun → AgentContextBundle N → AgentDraftOutput → InterventionHypothesis N
  draft_hypothesis run context draft = record {
    hypothesis_id = hypothesis_id_of run;
    agent_run_id = run.agent_run_id;
    brand_id = run.brand_id;
    store_id = run.store_id;
    opportunity_gap_id = run.opportunity_gap_id;
    truth_status = draft_truth_status;
    statement = draft.hypothesis;
    rationale = draft.reasoning_summary;
    expected_metric_id = draft.draft_experiment_plan.measurement_metric_id;
    evidence_refs = unique_sorted sorting draft.evidence_refs;
    uncertainty = draft_uncertainty context draft;
    requested_core_writes = 0;
  }

  abbrev pub draft_guardrail : List String → String → ExperimentGuardrail
  draft_guardrail refs metric_id = record {
    metric_id = metric_id;
    relation = must_not_degrade;
    evidence_refs = refs;
  }

  unfoldable pub draft_plan : AgentRun → AgentContextBundle N → AgentDraftOutput → ExperimentPlan N
  draft_plan run context draft =
      let refs = unique_sorted sorting draft.evidence_refs in
      let drafted = draft.draft_experiment_plan in
      record {
        experiment_plan_id = string_append "experiment_plan:" run.agent_run_id;
        hypothesis_id = hypothesis_id_of run;
        agent_run_id = run.agent_run_id;
        brand_id = run.brand_id;
        store_id = run.store_id;
        opportunity_gap_id = run.opportunity_gap_id;
        truth_status = draft_truth_status;
        title =
            string_append "Merchant-reviewed "
              (string_append drafted.measurement_metric_id " experiment");
        objective = drafted.objective;
        proposed_intervention = record {
          change_kind = operational_experiment;
          summary = draft.hypothesis;
          merchant_editable = true;
        };
        measurement = record {
          primary_metric_id = drafted.measurement_metric_id;
          metric_window = context.opportunity_gap.metric_window;
          guardrails = map (draft_guardrail refs) drafted.guardrail_metric_ids;
        };
        safety = record {
          merchant_confirmation_required = drafted.merchant_review_required;
          rollback_supported = true;
          stop_criteria =
              "Stop if guardrails degrade or the merchant rejects the draft experiment." ∷ [];
        };
        evidence_refs = refs;
        uncertainty = draft_uncertainty context draft;
        requested_core_writes = 0;
      }

  abbrev pub same_identity : AgentRun → AgentContextBundle N → Bool
  same_identity run context =
      run.agent_run_id == context.agent_run_id
      && run.brand_id == context.brand_id
      && run.store_id == context.store_id
      && run.opportunity_gap_id == context.opportunity_gap_id

  unfoldable pub build_agent_draft_artifacts :
      AgentRun → AgentContextBundle N → Outcome BoundaryError (AgentDraftArtifacts N)
  build_agent_draft_artifacts run_input context_input = do
    run ← parse_as (run_schema run_input) run_input run_refused
    context ← with_error context_refused (parse_context sorting number context_input)
    draft ← assert_captured_draft run
    _ ← parse_as (same_identity run context) tt identities_differ
    let h = draft_hypothesis run context draft
    let p = draft_plan run context draft
    hypothesis ← parse_as (hypothesis_schema number h) h hypothesis_refused
    plan ← parse_as (plan_schema number p) p plan_refused
    ok (record { hypothesis = hypothesis; experiment_plan = plan })
