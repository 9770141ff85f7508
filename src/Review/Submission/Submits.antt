-- ===== src/Review/Submission/Submits.antt =====
-- When a plan is submitted, in src/merchant-review/experiment-review.ts.
use data_dyna.Base.{
  String, Option, List, [], ◌∷◌, Bool, true, ◌≡◌, ◌∙◌, sym, refl, arith, string_eq, beq_refl, All,
  inl, inr, Bool-cases, ok, thrown, if◌then◌else◌,
}
use data_dyna.Base.Table.{All-mono}
use data_dyna.Agent.{Numbers, includes}
use data_dyna.Agent.Plan.{ExperimentPlan}
use data_dyna.Agent.Validator.{ExperimentValidationResult}
use data_dyna.Review.{MerchantReviewActor}
use data_dyna.Review.Submission.{
  SubmittedPlan, SubmissionIssue, not_accepted, plain_rejected, refined, is_accept,
  unknown_ref_issues, submission_issues, submission_schema, submitted_plan,
  submit_experiment_plan_for_merchant_review, check_plan_identity,
}

includes_own : (ts : List String) → All (λ t. includes ts t ≡ true) ts
includes_own [] = tt
includes_own (t ∷ ts) =
    (ground (arith, beq_refl t), All-mono ts (λ u h. ground (arith, h)) (includes_own ts))

unknown_ref_issues_none :
    (known refs : List String)
    → All (λ t. includes known t ≡ true) refs
    → unknown_ref_issues known refs ≡ []
unknown_ref_issues_none known [] h = refl
unknown_ref_issues_none known (t ∷ refs) h =
    ground (arith, h.0, unknown_ref_issues_none known refs h.1)

module _ {N : Type 0} (num : Numbers N) (is_iso_date : String → Bool) (review_id : String)
    (plan : ExperimentPlan N) (result : ExperimentValidationResult) (submitted_at : String)
    (by_actor : Option MerchantReviewActor) where
  abbrev whole : SubmittedPlan N
  whole = submitted_plan num is_iso_date review_id plan result submitted_at by_actor

  abbrev refusal : List SubmissionIssue
  refusal = if is_accept result.decision then [] else not_accepted ∷ []

  submission_issues-whole : submission_issues whole ≡ refusal
  unfolding submission_issues check_plan_identity submitted_plan
  submission_issues-whole = ground (
    arith,
    beq_refl plan.experiment_plan_id,
    beq_refl plan.hypothesis_id,
    beq_refl plan.agent_run_id,
    beq_refl plan.brand_id,
    beq_refl plan.store_id,
    beq_refl plan.opportunity_gap_id,
    unknown_ref_issues_none plan.evidence_refs plan.evidence_refs (includes_own plan.evidence_refs),
  )

  -- Submitting a plan whose plain object is taken returns the submission if the validator's
  -- decision is to accept, and is refused for that reason only if it is not.
  pub submit_experiment_plan_for_merchant_review_lem :
      submit_experiment_plan_for_merchant_review num is_iso_date review_id plan result submitted_at
        by_actor
      ≡ (if submission_schema num is_iso_date whole
          then if is_accept result.decision then ok whole else thrown (refined (not_accepted ∷ []))
          else thrown plain_rejected)
  unfolding submit_experiment_plan_for_merchant_review
  submit_experiment_plan_for_merchant_review_lem = ground (arith, submission_issues-whole)

  pub submit_experiment_plan_for_merchant_review_ok :
      {s : SubmittedPlan N}
      → submit_experiment_plan_for_merchant_review num is_iso_date review_id plan result
          submitted_at by_actor
        ≡ ok s
      → s ≡ whole
  submit_experiment_plan_for_merchant_review_ok e =
      let cases = sym submit_experiment_plan_for_merchant_review_lem ∙ e in
      elim (Bool-cases (submission_schema num is_iso_date whole)) [
        | inr rejected ↦ cc (rw rejected at cases)
        | inl taken ↦ elim (Bool-cases (is_accept result.decision)) [
          | inl accepted ↦ cc (rw (taken, accepted) at cases)
          | inr other ↦ cc (rw (taken, other) at cases)
        ]
      ]
