-- ===== src/Review/Preferences.antt =====
-- From a rejected review to a confirmed preference, in experiment-review.ts.
use data_dyna.Base.{String, Bool, ◌≡◌, ap, sym, ◌∙◌, ok, Bool-cases, inl, inr}
use data_dyna.Review.{MerchantReviewActor}
use data_dyna.Review.Decisions.{
  RejectionReasonCode, MerchantReviewSubmission, MerchantReviewDecisionBase, rejected,
  PreferenceCandidate, PreferenceConfirmation, Schemas, parse, decision_base,
  reject_experiment_review, create_preference_candidate_from_rejection, confirm_merchant_preference,
}

parse_ok : {A : Type 0} (takes : A → Bool) (a b : A) → parse takes a ≡ ok b → a ≡ b
parse_ok takes a b h = elim (Bool-cases (takes a)) [
  | inl taken ↦ cc (rw taken at h)
  | inr refused ↦ absurd (cc (rw refused at h))
]

module _ (schemas : Schemas) where
  -- A preference that is confirmed from a candidate that is made from a rejection of a submission
  -- has the submission's brand, store and evidence and the candidate's key and value, and its
  -- candidate names the review and the decision, provided that every schema takes its object.
  pub confirmed_traces :
      (s : MerchantReviewSubmission) (decision_id decided_at : String) (actor : MerchantReviewActor)
      (code : RejectionReasonCode) (text : String) (b : MerchantReviewDecisionBase)
      (candidate_id key value created_at : String) (candidate : PreferenceCandidate)
      (preference_id confirmed_at : String) (confirmed_by : MerchantReviewActor)
      (confirmation : PreferenceConfirmation)
      → reject_experiment_review schemas s decision_id decided_at actor code text
        ≡ ok (rejected b code text)
      → create_preference_candidate_from_rejection schemas b text candidate_id key value created_at
        ≡ ok candidate
      → confirm_merchant_preference schemas candidate preference_id confirmed_at confirmed_by
        ≡ ok confirmation
      → (confirmation.brand_id ≡ s.brand_id)
        × (confirmation.store_id ≡ s.store_id)
        × (confirmation.evidence_refs ≡ s.evidence_refs)
        × (confirmation.preference_key ≡ key)
        × (confirmation.preference_value ≡ value)
        × (candidate.review_id ≡ s.review_id)
        × (candidate.rejection_decision_id ≡ decision_id)
  unfolding reject_experiment_review create_preference_candidate_from_rejection
      confirm_merchant_preference decision_base
  confirmed_traces s decision_id decided_at actor code text b candidate_id key value created_at
        candidate preference_id confirmed_at confirmed_by confirmation h1 h2 h3 =
      let made = parse_ok schemas.takes_decision _ _ h1 in
      let drawn = parse_ok schemas.takes_candidate _ _ h2 in
      let confirmed = parse_ok schemas.takes_confirmation _ _ h3 in
      let base : decision_base s decision_id decided_at actor ≡ b = cc in
      (
        sym (ap (λ p. p.brand_id) confirmed)
            ∙ sym (ap (λ c. c.brand_id) drawn)
            ∙ sym (ap (λ d. d.brand_id) base),
        sym (ap (λ p. p.store_id) confirmed)
            ∙ sym (ap (λ c. c.store_id) drawn)
            ∙ sym (ap (λ d. d.store_id) base),
        sym (ap (λ p. p.evidence_refs) confirmed)
            ∙ sym (ap (λ c. c.evidence_refs) drawn)
            ∙ sym (ap (λ d. d.evidence_refs) base),
        sym (ap (λ p. p.preference_key) confirmed) ∙ sym (ap (λ c. c.candidate_key) drawn),
        sym (ap (λ p. p.preference_value) confirmed) ∙ sym (ap (λ c. c.candidate_value) drawn),
        sym (ap (λ c. c.review_id) drawn) ∙ sym (ap (λ d. d.review_id) base),
        sym (ap (λ c. c.rejection_decision_id) drawn) ∙ sym (ap (λ d. d.decision_id) base),
      )
