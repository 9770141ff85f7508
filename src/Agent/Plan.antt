-- ===== src/Agent/Plan.antt =====
-- src/agent/experiment-plan.ts: a hypothesis and the plan of an experiment, with their schemas.
use data_dyna.Base.{ℕ, String, List, [], ◌∷◌, Bool, true, ◌&&◌, ◌==◌, string_eq, nat_beq, all, ◌≡◌}
use data_dyna.Agent.{
  Numbers, all_hold, all_hold-All, nonempty, nonempty_texts, includes, MetricWindow,
  snapshot_metric_ids, is_share,
}

pub data ExperimentUncertaintyLevel : Type 0 where
  low medium high : ExperimentUncertaintyLevel

pub data ExperimentPlanChangeKind : Type 0 where
  operational_experiment customer_experience_experiment : ExperimentPlanChangeKind

pub data GuardrailUse : Type 0 where
  must_not_degrade monitor_only : GuardrailUse

pub record ExperimentUncertainty (N : Type 0) : Type 0 where
  pub level : ExperimentUncertaintyLevel
  pub confidence : N
  pub assumptions : List String

-- The writes that a draft asks for are given by their number.
pub record InterventionHypothesis (N : Type 0) : Type 0 where
  pub hypothesis_id : String
  pub agent_run_id : String
  pub brand_id : String
  pub store_id : String
  pub opportunity_gap_id : String
  pub truth_status : String
  pub statement : String
  pub rationale : String
  pub expected_metric_id : String
  pub evidence_refs : List String
  pub uncertainty : ExperimentUncertainty N
  pub requested_core_writes : ℕ

pub record ExperimentGuardrail : Type 0 where
  pub metric_id : String
  pub relation : GuardrailUse
  pub evidence_refs : List String

pub record ProposedIntervention : Type 0 where
  pub change_kind : ExperimentPlanChangeKind
  pub summary : String
  pub merchant_editable : Bool

pub record Measurement : Type 0 where
  pub primary_metric_id : String
  pub metric_window : MetricWindow
  pub guardrails : List ExperimentGuardrail

pub record PlanSafety : Type 0 where
  pub merchant_confirmation_required : Bool
  pub rollback_supported : Bool
  pub stop_criteria : List String

pub record ExperimentPlan (N : Type 0) : Type 0 where
  pub experiment_plan_id : String
  pub hypothesis_id : String
  pub agent_run_id : String
  pub brand_id : String
  pub store_id : String
  pub opportunity_gap_id : String
  pub truth_status : String
  pub title : String
  pub objective : String
  pub proposed_intervention : ProposedIntervention
  pub measurement : Measurement
  pub safety : PlanSafety
  pub evidence_refs : List String
  pub uncertainty : ExperimentUncertainty N
  pub requested_core_writes : ℕ

-- `AgentDraftTruthStatusSchema`.
abbrev pub draft_truth_status : String
draft_truth_status = "agent_draft_not_core_truth"

unfoldable pub guardrail_schema : ExperimentGuardrail → Bool
guardrail_schema g = includes snapshot_metric_ids g.metric_id && nonempty_texts g.evidence_refs

module _ {N : Type 0} (num : Numbers N) where
  unfoldable pub uncertainty_schema : ExperimentUncertainty N → Bool
  uncertainty_schema u = is_share num u.confidence && nonempty_texts u.assumptions

  abbrev pub hypothesis_fields : InterventionHypothesis N → List Bool
  hypothesis_fields h =
      (nonempty h.hypothesis_id)
      ∷ (nonempty h.agent_run_id)
      ∷ (nonempty h.brand_id)
      ∷ (nonempty h.store_id)
      ∷ (nonempty h.opportunity_gap_id)
      ∷ (h.truth_status == draft_truth_status)
      ∷ (nonempty h.statement)
      ∷ (nonempty h.rationale)
      ∷ (includes snapshot_metric_ids h.expected_metric_id)
      ∷ (nonempty_texts h.evidence_refs)
      ∷ (uncertainty_schema h.uncertainty)
      ∷ (nat_beq h.requested_core_writes 0)
      ∷ []

  unfoldable pub hypothesis_schema : InterventionHypothesis N → Bool
  hypothesis_schema h = all_hold (hypothesis_fields h)

  abbrev pub plan_fields : ExperimentPlan N → List Bool
  plan_fields p =
      (nonempty p.experiment_plan_id)
      ∷ (nonempty p.hypothesis_id)
      ∷ (nonempty p.agent_run_id)
      ∷ (nonempty p.brand_id)
      ∷ (nonempty p.store_id)
      ∷ (nonempty p.opportunity_gap_id)
      ∷ (p.truth_status == draft_truth_status)
      ∷ (nonempty p.title)
      ∷ (nonempty p.objective)
      ∷ (nonempty p.proposed_intervention.summary)
      ∷ p.proposed_intervention.merchant_editable
      ∷ (includes snapshot_metric_ids p.measurement.primary_metric_id)
      ∷ (all guardrail_schema p.measurement.guardrails)
      ∷ (nonempty_texts p.safety.stop_criteria)
      ∷ (nonempty_texts p.evidence_refs)
      ∷ (uncertainty_schema p.uncertainty)
      ∷ (nat_beq p.requested_core_writes 0)
      ∷ []

  unfoldable pub plan_schema : ExperimentPlan N → Bool
  plan_schema p = all_hold (plan_fields p)

  pub hypothesis_schema_fields :
      (h : InterventionHypothesis N)
      → hypothesis_schema h ≡ true
      → (h.truth_status == draft_truth_status ≡ true)
        × (nonempty_texts h.evidence_refs ≡ true)
        × (nat_beq h.requested_core_writes 0 ≡ true)
  unfolding hypothesis_schema
  hypothesis_schema_fields h taken =
      let (_, (_, (_, (_, (_, (truth, (_, (_, (_, (refs, (_, (writes, _)))))))))))) =
        all_hold-All (hypothesis_fields h) taken in
      (truth, refs, writes)

  pub plan_schema_fields :
      (p : ExperimentPlan N)
      → plan_schema p ≡ true
      → (p.truth_status == draft_truth_status ≡ true)
        × (nonempty_texts p.evidence_refs ≡ true)
        × (nat_beq p.requested_core_writes 0 ≡ true)
  unfolding plan_schema
  plan_schema_fields p taken =
      let (_, (_, (_, (_, (_, (_, (truth, fields))))))) = all_hold-All (plan_fields p) taken in
      let (_, (_, (_, (_, (_, (_, (_, (refs, (_, (writes, _)))))))))) = fields in
      (truth, refs, writes)
