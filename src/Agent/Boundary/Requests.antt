-- ===== src/Agent/Boundary/Requests.antt =====
-- What a request for the merchant's review in src/agent/result-boundary.ts has checked.
use data_dyna.Base.{
  String, Option, none, some, Bool, true, ◌≡◌, ◌⊎◌, ◌∙◌, ap, refl, inl, inr, Bool-cases, Outcome,
  Outcome-cases, bind_returned, ok, thrown,
}
use data_dyna.Agent.{Numbers, Sorting}
use data_dyna.Agent.Context.{AgentContextBundle, sufficient}
use data_dyna.Agent.Run.{AgentRun, AgentRunEvent, merchant_review_requested, AgentRunAuditStore}
use data_dyna.Agent.Validator.{ExperimentValidationResult}
use data_dyna.Agent.Validator.Decides.{IsValidated}
use data_dyna.Agent.Boundary.{
  BoundaryError, result_event, requested_metadata, AgentDraftArtifacts, AgentDraftResultGate,
  AgentMerchantReviewRequest, AgentResultBoundaryStatus, is_validated, status_for_validation,
  with_error, submission_refused,
}
use data_dyna.Agent.Boundary.Artifacts.{build_agent_draft_artifacts}
use data_dyna.Agent.Boundary.Evaluate.{
  passed, announce, submitted_of, request_on_gate, request_merchant_review_for_agent_draft,
  judge_artifacts,
}
use data_dyna.Agent.Boundary.Gate.{
  appended, append_result_event-cases, status_for_accept, judge_artifacts_accept, evaluated_event,
  gate_with, refused, evaluated, gate_endings,
}
use data_dyna.Review.{MerchantReviewActor}
use data_dyna.Review.Submission.{SubmittedPlan, submitted_plan}
use data_dyna.Review.Submission.Submits.{submit_experiment_plan_for_merchant_review_ok}

with_error_ok :
    {E A : Type 0} (wrap : E → BoundaryError) (o : Outcome E A) {a : A}
    → with_error wrap o ≡ ok a
    → o ≡ ok a
with_error_ok wrap (ok b) e = cc
with_error_ok wrap (thrown x) e = cc

module _ {N : Type 0} (sorting : Sorting) (number : Numbers N) (is_iso_date : String → Bool)
    (run : AgentRun) (review_id submitted_at : String) (submitted_by : Option MerchantReviewActor)
    (evaluated_at requested_at : String) (store : AgentRunAuditStore)
    (context : AgentContextBundle N) where
  abbrev pub requested_event : SubmittedPlan N → AgentRunEvent
  requested_event s = result_event run merchant_review_requested requested_at (requested_metadata s)

  abbrev pub evaluation : ExperimentValidationResult → AgentRunAuditStore
  evaluation r = appended store (evaluated_event sorting number store run context evaluated_at r)

  -- A request that is returned has validated artifacts and a sufficient sample; its submission is
  -- of their plan; the audit has the evaluation and the request, in this order. One that throws has
  -- added the evaluation at most.
  abbrev pub Requested :
      AgentRunAuditStore × Outcome BoundaryError (AgentMerchantReviewRequest N) → Type 0
  Requested (t, thrown x) = (t ≡ store) ⊎ ((r : ExperimentValidationResult) × (t ≡ evaluation r))
  Requested (t, ok answer) =
      (a : AgentDraftArtifacts N) × (answer.gate.artifacts ≡ some a)
      × IsValidated sorting number context (some a.hypothesis) (some a.experiment_plan)
      × (context.opportunity_gap.sample_status ≡ sufficient)
      × (answer.submission
          ≡ submitted_plan number is_iso_date review_id a.experiment_plan
              answer.gate.validation_result submitted_at submitted_by)
      × (t
          ≡ appended (evaluation answer.gate.validation_result) (requested_event answer.submission))

  passed_ok :
      (status : AgentResultBoundaryStatus) (artifacts : Option (AgentDraftArtifacts N))
      {a : AgentDraftArtifacts N}
      → passed sorting number status artifacts ≡ ok a
      → (artifacts ≡ some a) × (is_validated status ≡ true)
  passed_ok status none e = cc
  passed_ok status (some b) e = elim (Bool-cases (is_validated status)) [
    | inl valid ↦ (cc (rw valid at e), valid)
    | inr other ↦ cc (rw other at e)
  ]

  submitted_of_ok :
      (gate : AgentDraftResultGate N) {s : SubmittedPlan N}
      → submitted_of sorting number is_iso_date run review_id submitted_at submitted_by evaluated_at
          requested_at gate
        ≡ ok s
      → (a : AgentDraftArtifacts N) × (gate.artifacts ≡ some a)
        × (is_validated gate.status ≡ true)
        × (s
            ≡ submitted_plan number is_iso_date review_id a.experiment_plan gate.validation_result
                submitted_at submitted_by)
  unfolding submitted_of
  submitted_of_ok gate e =
      let (a, passes, submits) =
        bind_returned (passed sorting number gate.status gate.artifacts) _ e in
      let (found, valid) = passed_ok gate.status gate.artifacts passes in
      let whole =
        submit_experiment_plan_for_merchant_review_ok number is_iso_date review_id a.experiment_plan
          gate.validation_result submitted_at submitted_by
          (with_error_ok submission_refused _ submits) in
      (a, found, valid, whole)

  announce-Requested :
      (artifacts : Option (AgentDraftArtifacts N)) (r : ExperimentValidationResult)
      → judge_artifacts sorting number context
          (build_agent_draft_artifacts sorting number run context)
        ≡ (artifacts, ok r)
      → let gate = gate_with sorting number store run context evaluated_at artifacts r in
        Requested (
          announce sorting number (evaluation r) run requested_at gate (
            submitted_of sorting number is_iso_date run review_id submitted_at submitted_by
              evaluated_at requested_at gate))
  unfolding announce status_for_validation
  announce-Requested artifacts r j =
      let gate = gate_with sorting number store run context evaluated_at artifacts r in
      let submission =
        submitted_of sorting number is_iso_date run review_id submitted_at submitted_by evaluated_at
          requested_at gate in
      elim (Outcome-cases submission) [
        | inr (x, failed) ↦ rw failed (inr (r, refl))
        | inl (s, done) ↦
            elim (append_result_event-cases (evaluation r) run merchant_review_requested
              requested_at (requested_metadata s)) [
                | inr (x, lost) ↦ rw (done, lost) (inr (r, refl))
                | inl kept ↦
                    let (a, found, valid, whole) = submitted_of_ok gate done in
                    let same : artifacts ≡ some a = found in
                    let accepts = status_for_accept r.decision valid in
                    let (fit, enough) =
                      judge_artifacts_accept sorting number context _ a r
                        (j ∙ ap (λ o. (o, ok r)) same) accepts in
                    rw (done, kept) (a, found, fit, enough, whole, refl)
              ]
      ]

  -- On every branch of a request for review: if it returns, the gate has artifacts that satisfy
  -- their schemas and fit the context, the peer sample is sufficient, the submission is made of
  -- their plan, and the audit has grown by the evaluation and the request, in this order; if it
  -- throws, the audit has grown by an evaluation at most. For a sorting that keeps the members of
  -- a list and leaves a sorted list alone.
  pub request_merchant_review_for_agent_draft-Requested : Requested (
      request_merchant_review_for_agent_draft sorting number is_iso_date run review_id submitted_at
        submitted_by evaluated_at requested_at store context)
  unfolding request_merchant_review_for_agent_draft request_on_gate
  request_merchant_review_for_agent_draft-Requested =
      elim (gate_endings sorting number store run context evaluated_at) [
        | refused x e ↦ rw e (inl refl)
        | evaluated artifacts r j e ↦ rw e (announce-Requested artifacts r j)
      ]
