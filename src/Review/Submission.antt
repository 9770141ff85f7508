-- ===== src/Review/Submission.antt =====
-- Submitting a plan for review, and viewing the review, in
-- src/merchant-review/experiment-review.ts. `is_iso_date` is zod's test of a date with offset.
pub mod Submits
use data_dyna.Base.{
  String, Option, none, some, List, [], ◌∷◌, ◌++◌, Bool, true, false, not, ◌&&◌, ◌==◌, string_eq,
  coalesce, Outcome, ok, thrown, if◌then◌else◌,
}
use data_dyna.Agent.{Numbers, all_hold, nonempty, nonempty_texts, includes}
use data_dyna.Agent.Plan.{ExperimentPlan, plan_schema}
use data_dyna.Agent.Run.{nonempty_if_given}
use data_dyna.Agent.Validator.{
  ExperimentValidationDecision, accept, block, needs_more_data, ExperimentValidationResult,
  result_schema,
}
use data_dyna.Review.{MerchantReviewActor, MerchantReviewActorType, system}
use data_dyna.Review.Decisions.{MerchantReviewSubmission}

-- A submission whole: with the plan and the validator's result.
pub record SubmittedPlan (N : Type 0) : Type 0 where
  pub submission : MerchantReviewSubmission
  pub experiment_plan : ExperimentPlan N
  pub validation_result : ExperimentValidationResult

pub data SubmissionIssue : Type 0 where
  wrong_identity : (field : String) → SubmissionIssue
  not_accepted : SubmissionIssue
  unknown_evidence_ref : String → SubmissionIssue

pub data SubmissionFailure : Type 0 where
  plain_rejected : SubmissionFailure
  refined : List SubmissionIssue → SubmissionFailure

abbrev issue_if : Bool → SubmissionIssue → List SubmissionIssue
issue_if b i = if b then i ∷ [] else []

abbrev pub is_accept : ExperimentValidationDecision → Bool
is_accept accept = true
is_accept block = false
is_accept needs_more_data = false

unfoldable pub actor_schema : MerchantReviewActor → Bool
actor_schema a = nonempty a.actor_id && nonempty_if_given a.display_name

pub record MerchantReviewViewed : Type 0 where
  pub review_view_id : String
  pub review_id : String
  pub experiment_plan_id : String
  pub brand_id : String
  pub store_id : String
  pub viewed_at : String
  pub actor : MerchantReviewActor
  pub evidence_refs : List String

abbrev pub viewed_fields : (String → Bool) → MerchantReviewViewed → List Bool
viewed_fields is_iso_date v =
    nonempty v.review_view_id
    ∷ nonempty v.review_id
    ∷ nonempty v.experiment_plan_id
    ∷ nonempty v.brand_id
    ∷ nonempty v.store_id
    ∷ is_iso_date v.viewed_at
    ∷ actor_schema v.actor
    ∷ nonempty_texts v.evidence_refs
    ∷ []

-- `checkPlanIdentity`.
unfoldable pub check_plan_identity :
    {N : Type 0} → ExperimentPlan N → MerchantReviewSubmission → List SubmissionIssue
check_plan_identity plan expected =
    issue_if (not (plan.experiment_plan_id == expected.experiment_plan_id))
      (wrong_identity "experimentPlanId")
    ++ (issue_if (not (plan.hypothesis_id == expected.hypothesis_id))
          (wrong_identity "hypothesisId")
        ++ (issue_if (not (plan.agent_run_id == expected.agent_run_id))
              (wrong_identity "agentRunId")
            ++ (issue_if (not (plan.brand_id == expected.brand_id)) (wrong_identity "brandId")
                ++ (issue_if (not (plan.store_id == expected.store_id)) (wrong_identity "storeId")
                    ++ issue_if (not (plan.opportunity_gap_id == expected.opportunity_gap_id))
                        (wrong_identity "opportunityGapId")))))

abbrev pub unknown_ref_issues : List String → List String → List SubmissionIssue
unknown_ref_issues known [] = []
unknown_ref_issues known (ref ∷ refs) =
    issue_if (not (includes known ref)) (unknown_evidence_ref ref) ++ unknown_ref_issues known refs

-- The refinement of `MerchantReviewSubmissionSchema`.
unfoldable pub submission_issues : {N : Type 0} → SubmittedPlan N → List SubmissionIssue
unfolding check_plan_identity
submission_issues s =
    check_plan_identity s.experiment_plan s.submission
    ++ (issue_if (not (is_accept s.validation_result.decision)) not_accepted
        ++ unknown_ref_issues s.experiment_plan.evidence_refs s.submission.evidence_refs)

module _ {N : Type 0} (num : Numbers N) (is_iso_date : String → Bool) where
  abbrev pub submission_fields : SubmittedPlan N → List Bool
  submission_fields s =
      nonempty s.submission.review_id
      ∷ nonempty s.submission.experiment_plan_id
      ∷ nonempty s.submission.hypothesis_id
      ∷ nonempty s.submission.agent_run_id
      ∷ nonempty s.submission.brand_id
      ∷ nonempty s.submission.store_id
      ∷ nonempty s.submission.opportunity_gap_id
      ∷ is_iso_date s.submission.submitted_at
      ∷ actor_schema s.submission.submitted_by
      ∷ plan_schema num s.experiment_plan
      ∷ result_schema s.validation_result
      ∷ nonempty_texts s.submission.evidence_refs
      ∷ []

  unfoldable pub submission_schema : SubmittedPlan N → Bool
  submission_schema s = all_hold (submission_fields s)

  abbrev pub refined_submission :
      SubmittedPlan N → List SubmissionIssue → Outcome SubmissionFailure (SubmittedPlan N)
  refined_submission s [] = ok s
  refined_submission s (i ∷ is) = thrown (refined (i ∷ is))

  unfoldable pub submitted_plan :
      (review_id : String)
      → ExperimentPlan N
      → ExperimentValidationResult
      → (submitted_at : String) → Option MerchantReviewActor
      → SubmittedPlan N
  submitted_plan review_id plan result submitted_at submitted_by = record {
    submission = record {
      review_id = review_id;
      experiment_plan_id = plan.experiment_plan_id;
      hypothesis_id = plan.hypothesis_id;
      agent_run_id = plan.agent_run_id;
      brand_id = plan.brand_id;
      store_id = plan.store_id;
      opportunity_gap_id = plan.opportunity_gap_id;
      submitted_at = submitted_at;
      submitted_by =
          coalesce submitted_by
            (record { actor_type = system; actor_id = "data-dyna-agent"; display_name = none });
      evidence_refs = plan.evidence_refs;
    };
    experiment_plan = plan;
    validation_result = result;
  }

  unfoldable pub submit_experiment_plan_for_merchant_review :
      (review_id : String)
      → ExperimentPlan N
      → ExperimentValidationResult
      → (submitted_at : String) → Option MerchantReviewActor
      → Outcome SubmissionFailure (SubmittedPlan N)
  submit_experiment_plan_for_merchant_review review_id plan result submitted_at submitted_by =
      let s = submitted_plan review_id plan result submitted_at submitted_by in
      if submission_schema s
      then refined_submission s (submission_issues s)
      else thrown plain_rejected

  unfoldable pub record_experiment_review_viewed :
      MerchantReviewSubmission
      → (review_view_id viewed_at : String) → MerchantReviewActor
      → Outcome SubmissionFailure MerchantReviewViewed
  record_experiment_review_viewed submission review_view_id viewed_at actor =
      let viewed : MerchantReviewViewed = record {
        review_view_id = review_view_id;
        review_id = submission.review_id;
        experiment_plan_id = submission.experiment_plan_id;
        brand_id = submission.brand_id;
        store_id = submission.store_id;
        viewed_at = viewed_at;
        actor = actor;
        evidence_refs = submission.evidence_refs;
      } in
      if all_hold (viewed_fields is_iso_date viewed) then ok viewed else thrown plain_rejected
