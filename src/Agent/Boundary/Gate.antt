-- ===== src/Agent/Boundary/Gate.antt =====
-- What the gate of src/agent/result-boundary.ts lets through, and what it appends to the audit.
use data_dyna.Base.{
  String, Option, some, [], ◌∷◌, ◌++◌, true, ◌≡◌, ◌⊎◌, ◌∙◌, ap, sym, refl, inl, inr, Bool-cases,
  Outcome, Outcome-cases, ok, thrown, subst,
}
use data_dyna.Contract.{Fields}
use data_dyna.Agent.{Numbers, Sorting}
use data_dyna.Agent.Context.{AgentContextBundle, sufficient, parse_context}
use data_dyna.Agent.Run.{
  event_rejected, AgentRun, AgentRunEvent, AgentRunEventType, draft_validation_evaluated,
  AgentRunAuditStore, append_event, event_schema, run_schema,
}
use data_dyna.Agent.Validator.{
  ExperimentValidationDecision, accept, block, needs_more_data, ExperimentValidationResult,
  ResultFailure,
}
use data_dyna.Agent.Validator.Decides.{
  IsValidated, Verdict, accepted, postponed, blocked, validate_experiment_plan-Verdict,
}
use data_dyna.Agent.Plan.{InterventionHypothesis, ExperimentPlan}
use data_dyna.Agent.Context.Builds.{parse_context_ok}
use data_dyna.Agent.Boundary.{
  is_validated, status_for, result_refused, assert_captured_draft, run_refused, audit_failed,
  BoundaryError, result_event, append_result_event, AgentDraftArtifacts, AgentDraftResultGate,
  status_for_validation, evaluated_metadata,
}
use data_dyna.Agent.Boundary.Artifacts.{build_agent_draft_artifacts}
use data_dyna.Agent.Boundary.Evaluate.{
  Judged, judge_artifacts, gate_of, gate_of_parsed, parse_input, evaluate_agent_draft_result_gate,
  or_block,
}

abbrev pub appended : AgentRunAuditStore → AgentRunEvent → AgentRunAuditStore
appended store event = record store { events = store.events ++ event ∷ [] }

-- An event is appended, or something is thrown and the store stays as it is.
pub append_result_event-cases :
    (store : AgentRunAuditStore) (run : AgentRun) (event_type : AgentRunEventType)
    (occurred_at : String) (metadata : Fields)
    → (append_result_event store run event_type occurred_at metadata
        ≡ (appended store (result_event run event_type occurred_at metadata), ok tt))
      ⊎ ((x : BoundaryError) × (append_result_event store run event_type occurred_at metadata
            ≡ (store, thrown x)))
unfolding append_result_event append_event
append_result_event-cases store run event_type occurred_at metadata =
    let event = result_event run event_type occurred_at metadata in
    elim (Bool-cases (run_schema run)) [
      | inr refused ↦ inr (run_refused, rw refused)
      | inl taken ↦ elim (Bool-cases (event_schema event)) [
        | inl kept ↦ inl (rw (taken, kept))
        | inr dropped ↦ inr (audit_failed event_rejected, rw (taken, dropped))
      ]
    ]

pub status_for_accept :
    (d : ExperimentValidationDecision) → is_validated (status_for d) ≡ true → d ≡ accept
status_for_accept accept h = refl
status_for_accept needs_more_data h = cc
status_for_accept block h = cc

module _ {N : Type 0} (sorting : Sorting) (number : Numbers N) where
  Verdict_accept :
      (context : AgentContextBundle N) (hypothesis : Option (InterventionHypothesis N))
      (plan : Option (ExperimentPlan N)) {d : ExperimentValidationDecision}
      → Verdict sorting number context hypothesis plan d
      → d ≡ accept
      → IsValidated sorting number context hypothesis plan
        × (context.opportunity_gap.sample_status ≡ sufficient)
  Verdict_accept context hypothesis plan (accepted v enough) e = (v, enough)
  Verdict_accept context hypothesis plan (postponed v few) e = cc
  Verdict_accept context hypothesis plan (blocked unfit) e = cc

  -- Artifacts that were judged and accepted are validated.
  pub judge_artifacts_accept :
      (context : AgentContextBundle N) (built : Outcome BoundaryError (AgentDraftArtifacts N))
      (a : AgentDraftArtifacts N) (r : ExperimentValidationResult)
      → judge_artifacts sorting number context built ≡ (some a, ok r)
      → r.decision ≡ accept
      → IsValidated sorting number context (some a.hypothesis) (some a.experiment_plan)
        × (context.opportunity_gap.sample_status ≡ sufficient)
  unfolding judge_artifacts
  judge_artifacts_accept context (thrown x) a r e decided = cc (ap (λ j. j.0) e)
  judge_artifacts_accept context (ok b) a r e decided =
      let same : b ≡ a = cc (ap (λ j. j.0) e) in
      let (r', returns, verdict) =
        validate_experiment_plan-Verdict sorting number context (some b.hypothesis)
          (some b.experiment_plan) in
      let left : Outcome ResultFailure ExperimentValidationResult = ok r' in
      let given : left ≡ ok r =
        sym (ap (or_block sorting number context) returns) ∙ ap (λ j. j.1) e in
      let same_result : r' ≡ r = cc in
      subst
        (λ c.
          IsValidated sorting number context (some c.hypothesis) (some c.experiment_plan)
          × (context.opportunity_gap.sample_status ≡ sufficient))
        same
        (Verdict_accept context (some b.hypothesis) (some b.experiment_plan) verdict
          (ap (λ q. q.decision) same_result ∙ decided))

  parse_input_same :
      (run : AgentRun) (context : AgentContextBundle N) {given : AgentRun × AgentContextBundle N}
      → parse_input sorting number run context ≡ ok given
      → given ≡ (run, context)
  unfolding parse_input
  parse_input_same run context e = elim (Bool-cases (run_schema run)) [
    | inr refused ↦ cc (rw refused at e)
    | inl taken ↦ elim (Outcome-cases (parse_context sorting number context)) [
      | inr (x, failed) ↦ cc (rw (taken, failed) at e)
      | inl (c, parses) ↦
          let same = (parse_context_ok sorting number context parses).0 in
          elim (Outcome-cases (assert_captured_draft run)) [
            | inr (x, lost) ↦ cc (rw (taken, parses, lost) at e)
            | inl (d, captured) ↦ let given = rw (taken, parses, captured) at e in cc (given, same)
          ]
    ]
  ]

  -- How evaluating a draft ends.
  module _ (store : AgentRunAuditStore) (run : AgentRun) (context : AgentContextBundle N)
      (now : String) where
    abbrev pub evaluated_event : ExperimentValidationResult → AgentRunEvent
    evaluated_event r = result_event run draft_validation_evaluated now (evaluated_metadata run r)

    abbrev pub gate_with :
        Option (AgentDraftArtifacts N) → ExperimentValidationResult → AgentDraftResultGate N
    gate_with artifacts r = record {
      status = status_for_validation r;
      validation_result = r;
      artifacts = artifacts;
    }

    pub data GateEnding : Type 0 where
      refused :
          (x : BoundaryError)
          → evaluate_agent_draft_result_gate sorting number store run context now
            ≡ (store, thrown x)
          → GateEnding
      evaluated :
          (artifacts : Option (AgentDraftArtifacts N)) (r : ExperimentValidationResult)
          → judge_artifacts sorting number context
              (build_agent_draft_artifacts sorting number run context)
            ≡ (artifacts, ok r)
          → evaluate_agent_draft_result_gate sorting number store run context now
            ≡ (appended store (evaluated_event r), ok (gate_with artifacts r))
          → GateEnding

    abbrev judged : Judged sorting number
    judged =
        judge_artifacts sorting number context
          (build_agent_draft_artifacts sorting number run context)

    gate_of_judged :
        (artifacts : Option (AgentDraftArtifacts N))
        (o : Outcome ResultFailure ExperimentValidationResult)
        → judged ≡ (artifacts, o)
        → evaluate_agent_draft_result_gate sorting number store run context now
          ≡ gate_of sorting number store run now (artifacts, o)
        → GateEnding
    unfolding gate_of
    gate_of_judged artifacts (thrown x) e g = refused (result_refused x) g
    gate_of_judged artifacts (ok r) e g =
        elim (append_result_event-cases store run draft_validation_evaluated now
          (evaluated_metadata run r)) [
            | inl kept ↦ evaluated artifacts r e (g ∙ rw kept)
            | inr (x, lost) ↦ refused x (g ∙ rw lost)
          ]

    pub gate_endings : GateEnding
    unfolding evaluate_agent_draft_result_gate gate_of_parsed
    gate_endings = elim (Outcome-cases (parse_input sorting number run context)) [
      | inr (x, failed) ↦ refused x (rw failed)
      | inl (given, parses) ↦
          let same = parse_input_same run context parses in
          gate_of_judged judged.0 judged.1 refl (rw (parses, same))
    ]
