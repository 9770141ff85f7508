-- ===== src/Agent/Validator/Codes.antt =====
-- What the checks of src/agent/experiment-validator.ts push, and when they push nothing.
use data_dyna.Base.{
  String, List, [], ◌∷◌, map, Bool, true, false, not, ◌≡◌, ◌↔◌, refl, string_eq, eq_iff, arith, All,
  All-append, all, select, length, nat_beq,
}
use data_dyna.Agent.{Numbers, nonempty_texts, nonempty, includes}
use data_dyna.Agent.Context.{AgentContextBundle}
use data_dyna.Agent.Plan.{
  InterventionHypothesis, ExperimentPlan, hypothesis_schema, plan_schema, hypothesis_schema_fields,
  plan_schema_fields,
}
use data_dyna.Agent.Validator.{
  ExperimentValidationReasonCode, Reason, reason_if, weak_or_insufficient_sample, code_beq,
  has_blocking_reason, check_identity, check_truth_boundary, check_evidence_refs, check_uncertainty,
  check_safety, check_reasons, all_refs,
}

-- A reason of the checks has a message, and blocks.
abbrev pub IsBlocking : Reason → Type 0
IsBlocking (code, message) =
    (code_beq code weak_or_insufficient_sample ≡ false) × (nonempty message ≡ true)

reason_if-IsBlocking :
    (b : Bool) (code : ExperimentValidationReasonCode) (message : String)
    → IsBlocking (code, message)
    → All IsBlocking (reason_if b code message)
reason_if-IsBlocking true code message h = (h, tt)
reason_if-IsBlocking false code message h = tt

pub has_blocking_reason-cons :
    (r : Reason) (rs : List Reason) → All IsBlocking (r ∷ rs) → has_blocking_reason (r ∷ rs) ≡ true
unfolding has_blocking_reason
has_blocking_reason-cons (code, message) rs h = ground (arith, h.0)

pub messages_nonempty :
    (reasons : List Reason)
    → All IsBlocking reasons
    → all nonempty (map (λ reason. reason.1) reasons) ≡ true
messages_nonempty [] h = refl
messages_nonempty ((code, message) ∷ rs) h = ground (arith, h.0, messages_nonempty rs h.1)

nonempty_texts-length :
    (ts : List String) → nonempty_texts ts ≡ true → nat_beq (length ts) 0 ≡ false
nonempty_texts-length [] h = cc
nonempty_texts-length (t ∷ ts) h = ground arith

select-All :
    (p : String → Bool) (ts : List String)
    → (nat_beq (length (select (λ t. not (p t)) ts)) 0 ≡ true) ↔ All (λ t. p t ≡ true) ts
select-All p [] = ground arith
select-All p (t ∷ ts) = ground (arith, select-All p ts)

module _ {N : Type 0} (num : Numbers N) (context : AgentContextBundle N)
    (hypothesis : InterventionHypothesis N) (plan : ExperimentPlan N) where
  -- What the validator wants of three objects that satisfy their schemas.
  pub record IsFit : Type 0 where
    pub run_same :
        (hypothesis.agent_run_id ≡ context.agent_run_id)
        × (plan.agent_run_id ≡ context.agent_run_id)
    pub brand_same : (hypothesis.brand_id ≡ context.brand_id) × (plan.brand_id ≡ context.brand_id)
    pub store_same : (hypothesis.store_id ≡ context.store_id) × (plan.store_id ≡ context.store_id)
    pub gap_same :
        (hypothesis.opportunity_gap_id ≡ context.opportunity_gap_id)
        × (plan.opportunity_gap_id ≡ context.opportunity_gap_id)
    pub hypothesis_same : plan.hypothesis_id ≡ hypothesis.hypothesis_id
    pub refs_known :
        All
          (λ ref. includes context.evidence_refs ref ≡ true)
          (all_refs num context hypothesis plan)
    pub confident :
        (num.le hypothesis.uncertainty.confidence num.nought ≡ false)
        × (num.le plan.uncertainty.confidence num.nought ≡ false)
    pub confirmed : plan.safety.merchant_confirmation_required ≡ true
    pub reversible : plan.safety.rollback_supported ≡ true
    pub guarded : nat_beq (length plan.measurement.guardrails) 0 ≡ false

  check_identity-IsBlocking : All IsBlocking (check_identity num context hypothesis plan)
  unfolding check_identity
  check_identity-IsBlocking = ground arith

  check_identity_nil : (check_identity num context hypothesis plan ≡ []) ↔ (
      (hypothesis.agent_run_id ≡ context.agent_run_id)
      × (plan.agent_run_id ≡ context.agent_run_id)
      × (hypothesis.brand_id ≡ context.brand_id)
      × (plan.brand_id ≡ context.brand_id)
      × (hypothesis.store_id ≡ context.store_id)
      × (plan.store_id ≡ context.store_id)
      × (hypothesis.opportunity_gap_id ≡ context.opportunity_gap_id)
      × (plan.opportunity_gap_id ≡ context.opportunity_gap_id)
      × (plan.hypothesis_id ≡ hypothesis.hypothesis_id))
  unfolding check_identity
  check_identity_nil = ground (
    arith,
    eq_iff hypothesis.agent_run_id context.agent_run_id,
    eq_iff plan.agent_run_id context.agent_run_id,
    eq_iff hypothesis.brand_id context.brand_id,
    eq_iff plan.brand_id context.brand_id,
    eq_iff hypothesis.store_id context.store_id,
    eq_iff plan.store_id context.store_id,
    eq_iff hypothesis.opportunity_gap_id context.opportunity_gap_id,
    eq_iff plan.opportunity_gap_id context.opportunity_gap_id,
    eq_iff plan.hypothesis_id hypothesis.hypothesis_id,
  )

  check_safety_nil : (check_safety num context hypothesis plan ≡ []) ↔ (
      (plan.safety.merchant_confirmation_required ≡ true)
      × (plan.safety.rollback_supported ≡ true)
      × (nat_beq (length plan.measurement.guardrails) 0 ≡ false))
  unfolding check_safety
  check_safety_nil = ground arith

  check_safety-IsBlocking : All IsBlocking (check_safety num context hypothesis plan)
  unfolding check_safety
  check_safety-IsBlocking = ground arith

  check_truth_boundary-IsBlocking :
      All IsBlocking (check_truth_boundary num context hypothesis plan)
  unfolding check_truth_boundary
  check_truth_boundary-IsBlocking = ground arith

  check_evidence_refs-IsBlocking : All IsBlocking (check_evidence_refs num context hypothesis plan)
  unfolding check_evidence_refs
  check_evidence_refs-IsBlocking = ground arith

  check_uncertainty-IsBlocking : All IsBlocking (check_uncertainty num context hypothesis plan)
  unfolding check_uncertainty
  check_uncertainty-IsBlocking = ground arith

  pub check_reasons-IsBlocking : All IsBlocking (check_reasons num context hypothesis plan)
  unfolding check_reasons
  check_reasons-IsBlocking = All-append IsBlocking _ _ check_identity-IsBlocking (
      All-append IsBlocking _ _ check_truth_boundary-IsBlocking (
        All-append IsBlocking _ _ check_evidence_refs-IsBlocking
          (All-append IsBlocking _ _ check_uncertainty-IsBlocking check_safety-IsBlocking)))

  check_uncertainty_nil : (check_uncertainty num context hypothesis plan ≡ []) ↔ (
      (num.le hypothesis.uncertainty.confidence num.nought ≡ false)
      × (num.le plan.uncertainty.confidence num.nought ≡ false))
  unfolding check_uncertainty
  check_uncertainty_nil = ground arith

  module _ (taken : hypothesis_schema num hypothesis ≡ true)
      (plan_taken : plan_schema num plan ≡ true) where
    -- What the schemas have checked, the validator finds again.
    check_truth_boundary_nil : check_truth_boundary num context hypothesis plan ≡ []
    unfolding check_truth_boundary
    check_truth_boundary_nil = ground (
      arith,
      hypothesis_schema_fields num hypothesis taken,
      plan_schema_fields num plan plan_taken,
    )

    check_evidence_refs_nil :
        (check_evidence_refs num context hypothesis plan ≡ [])
        ↔ All
            (λ ref. includes context.evidence_refs ref ≡ true)
            (all_refs num context hypothesis plan)
    unfolding check_evidence_refs
    check_evidence_refs_nil =
        let (_, some_ref, _) = hypothesis_schema_fields num hypothesis taken in
        let (_, some_plan_ref, _) = plan_schema_fields num plan plan_taken in
        ground (
          arith,
          nonempty_texts-length hypothesis.evidence_refs some_ref,
          nonempty_texts-length plan.evidence_refs some_plan_ref,
          select-All (includes context.evidence_refs) (all_refs num context hypothesis plan),
        )

    pub check_reasons-IsFit : (check_reasons num context hypothesis plan ≡ []) ↔ IsFit
    unfolding check_reasons
    check_reasons-IsFit = ground (
      arith, check_identity_nil, check_truth_boundary_nil, check_evidence_refs_nil,
      check_uncertainty_nil, check_safety_nil,
    )
