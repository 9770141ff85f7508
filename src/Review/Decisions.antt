-- ===== src/Review/Decisions.antt =====
-- The decisions on a review, the preference that may follow from a rejection, and the merchant's
-- action events of src/merchant-review/experiment-review.ts. A schema of zod that has no refinement
-- is a parameter: whether it takes the object. Of a submission, the plan and the validator's result
-- are left out: nothing here reads them.
use data_dyna.Base.{String, Option, List, Bool, Outcome, ok, thrown, if◌then◌else◌}
use data_dyna.Review.{ParseFailure, base_rejected, MerchantReviewActor}

pub data RejectionReasonCode : Type 0 where
  not_relevant too_risky insufficient_evidence : RejectionReasonCode
  wrong_timing merchant_constraint other : RejectionReasonCode

pub record MerchantReviewSubmission : Type 0 where
  pub review_id : String
  pub experiment_plan_id : String
  pub hypothesis_id : String
  pub agent_run_id : String
  pub brand_id : String
  pub store_id : String
  pub opportunity_gap_id : String
  pub submitted_at : String
  pub submitted_by : MerchantReviewActor
  pub evidence_refs : List String

pub record MerchantReviewDecisionBase : Type 0 where
  pub decision_id : String
  pub review_id : String
  pub experiment_plan_id : String
  pub brand_id : String
  pub store_id : String
  pub decided_at : String
  pub actor : MerchantReviewActor
  pub evidence_refs : List String

-- The literal fields of a decision are its constructor.
pub data MerchantReviewDecision : Type 0 where
  accepted :
      MerchantReviewDecisionBase → (acceptance_notes : Option String) → MerchantReviewDecision
  rejected :
      MerchantReviewDecisionBase
      → RejectionReasonCode
      → (reason_text : String) → MerchantReviewDecision
  modified : MerchantReviewDecisionBase → (modification_summary : String) → MerchantReviewDecision

pub record PreferenceCandidate : Type 0 where
  pub preference_candidate_id : String
  pub review_id : String
  pub experiment_plan_id : String
  pub brand_id : String
  pub store_id : String
  pub rejection_decision_id : String
  pub candidate_key : String
  pub candidate_value : String
  pub reason_text : String
  pub created_at : String
  pub evidence_refs : List String

pub record PreferenceConfirmation : Type 0 where
  pub preference_id : String
  pub preference_candidate_id : String
  pub brand_id : String
  pub store_id : String
  pub preference_key : String
  pub preference_value : String
  pub confirmed_at : String
  pub confirmed_by : MerchantReviewActor
  pub evidence_refs : List String

pub record Schemas : Type 0 where
  pub takes_decision : MerchantReviewDecision → Bool
  pub takes_candidate : PreferenceCandidate → Bool
  pub takes_confirmation : PreferenceConfirmation → Bool

abbrev pub parse : {A : Type 0} → (A → Bool) → A → Outcome ParseFailure A
parse takes a = if takes a then ok a else thrown base_rejected

unfoldable pub decision_base :
    MerchantReviewSubmission
    → (decision_id decided_at : String) → MerchantReviewActor
    → MerchantReviewDecisionBase
decision_base submission decision_id decided_at actor = record {
  decision_id = decision_id;
  review_id = submission.review_id;
  experiment_plan_id = submission.experiment_plan_id;
  brand_id = submission.brand_id;
  store_id = submission.store_id;
  decided_at = decided_at;
  actor = actor;
  evidence_refs = submission.evidence_refs;
}

module _ (schemas : Schemas) where
  unfoldable pub accept_experiment_review :
      MerchantReviewSubmission
      → (decision_id decided_at : String) → MerchantReviewActor
      → Option String
      → Outcome ParseFailure MerchantReviewDecision
  unfolding decision_base
  accept_experiment_review submission decision_id decided_at actor notes =
      parse schemas.takes_decision
        (accepted (decision_base submission decision_id decided_at actor) notes)

  unfoldable pub reject_experiment_review :
      MerchantReviewSubmission
      → (decision_id decided_at : String) → MerchantReviewActor
      → RejectionReasonCode
      → String
      → Outcome ParseFailure MerchantReviewDecision
  unfolding decision_base
  reject_experiment_review submission decision_id decided_at actor code reason_text =
      parse schemas.takes_decision
        (rejected (decision_base submission decision_id decided_at actor) code reason_text)

  unfoldable pub record_experiment_review_modification :
      MerchantReviewSubmission
      → (decision_id decided_at : String) → MerchantReviewActor
      → String
      → Outcome ParseFailure MerchantReviewDecision
  unfolding decision_base
  record_experiment_review_modification submission decision_id decided_at actor summary =
      parse schemas.takes_decision
        (modified (decision_base submission decision_id decided_at actor) summary)

  -- The rejection is given by what it is made of.
  unfoldable pub create_preference_candidate_from_rejection :
      MerchantReviewDecisionBase
      → (reason_text preference_candidate_id : String)
      → (candidate_key candidate_value created_at : String)
      → Outcome ParseFailure PreferenceCandidate
  create_preference_candidate_from_rejection rejection reason_text id key value created_at =
      parse schemas.takes_candidate (record {
        preference_candidate_id = id;
        review_id = rejection.review_id;
        experiment_plan_id = rejection.experiment_plan_id;
        brand_id = rejection.brand_id;
        store_id = rejection.store_id;
        rejection_decision_id = rejection.decision_id;
        candidate_key = key;
        candidate_value = value;
        reason_text = reason_text;
        created_at = created_at;
        evidence_refs = rejection.evidence_refs;
      })

  unfoldable pub confirm_merchant_preference :
      PreferenceCandidate
      → (preference_id confirmed_at : String) → MerchantReviewActor
      → Outcome ParseFailure PreferenceConfirmation
  confirm_merchant_preference candidate id confirmed_at confirmed_by =
      parse schemas.takes_confirmation (record {
        preference_id = id;
        preference_candidate_id = candidate.preference_candidate_id;
        brand_id = candidate.brand_id;
        store_id = candidate.store_id;
        preference_key = candidate.candidate_key;
        preference_value = candidate.candidate_value;
        confirmed_at = confirmed_at;
        confirmed_by = confirmed_by;
        evidence_refs = candidate.evidence_refs;
      })
