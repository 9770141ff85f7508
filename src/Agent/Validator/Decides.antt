-- ===== src/Agent/Validator/Decides.antt =====
-- The decision of `validateExperimentPlan` in src/agent/experiment-validator.ts.
use data_dyna.Base.{
  String, Option, none, some, List, [], ◌∷◌, map, Bool, true, false, ◌≡◌, ◌≢◌, ◌↔◌, ◌⊎◌, ◌∙◌, ap,
  subst, inl, inr, refl, string_eq, arith, All, all, Bool-cases, Outcome, Outcome-cases, ok,
}
use data_dyna.Agent.{Numbers, Sorting, nonempty, nonempty_texts}
use data_dyna.Agent.Context.{
  AgentContextBundle, PeerSampleStatus, sufficient, weak_sample, insufficient_sample, parse_context,
}
use data_dyna.Agent.Context.Builds.{parse_context_ok, bundle_refs_nonempty}
use data_dyna.Agent.Plan.{
  InterventionHypothesis, ExperimentPlan, hypothesis_schema, plan_schema, plan_schema_fields,
}
use data_dyna.Agent.Validator.{
  ExperimentValidationDecision, accept, block, needs_more_data, ExperimentValidationResult,
  weak_or_insufficient_sample, Reason, ResultFailure, result, has_blocking_reason, is_sufficient,
  check_reasons, decide_on, decide_parsed, parsed, schema_failure, validate_experiment_plan,
  unique_codes, schema_invalid,
}
use data_dyna.Agent.Validator.Codes.{
  IsBlocking, IsFit, has_blocking_reason-cons, messages_nonempty, check_reasons-IsBlocking,
  check_reasons-IsFit,
}

nonempty_texts-all : (ts : List String) → nonempty_texts ts ≡ true → all nonempty ts ≡ true
nonempty_texts-all [] h = refl
nonempty_texts-all (t ∷ ts) h = h

abbrev made :
    ExperimentValidationDecision
    → List Reason
    → (messages refs : List String) → ExperimentValidationResult
made decision reasons messages refs = record {
  decision = decision;
  reason_codes = unique_codes (map (λ reason. reason.0) reasons);
  messages = messages;
  evidence_refs = refs;
}

result_ok :
    (decision : ExperimentValidationDecision) (reasons : List Reason) (messages refs : List String)
    → all nonempty messages ≡ true
    → all nonempty refs ≡ true
    → result decision reasons messages refs ≡ ok (made decision reasons messages refs)
unfolding result
result_ok decision reasons messages refs h k = rw (h, k)

is_sufficient_iff : (s : PeerSampleStatus) → (is_sufficient s ≡ true) ↔ (s ≡ sufficient)
is_sufficient_iff sufficient = ground arith
is_sufficient_iff weak_sample = ground arith
is_sufficient_iff insufficient_sample = ground arith

-- Whether an unknown value passes a schema.
parsed-cases :
    {A : Type 0} (schema : A → Bool) (o : Option A)
    → ((parsed schema o ≡ none) × ((a : A) → o ≡ some a → schema a ≡ false))
      ⊎ ((a : A) × (parsed schema o ≡ some a) × (o ≡ some a) × (schema a ≡ true))
parsed-cases schema none = inl (refl, λ a e. cc)
parsed-cases schema (some a) = elim (Bool-cases (schema a)) [
  | inl taken ↦ inr (a, rw taken, refl, taken)
  | inr refused ↦ inl (rw refused, λ b e. subst (λ c. schema c ≡ false) (cc) refused)
]

module _ {N : Type 0} (sorting : Sorting) (num : Numbers N) where
  module _ (context : AgentContextBundle N) (hypothesis : Option (InterventionHypothesis N))
      (plan : Option (ExperimentPlan N)) where
    -- The three objects satisfy their schemas, and together the validator's demands.
    pub record IsValidated : Type 0 where
      pub h : InterventionHypothesis N
      pub p : ExperimentPlan N
      pub hypothesis_is : hypothesis ≡ some h
      pub plan_is : plan ≡ some p
      pub context_taken : parse_context sorting num context ≡ ok context
      pub hypothesis_taken : hypothesis_schema num h ≡ true
      pub plan_taken : plan_schema num p ≡ true
      pub fit : IsFit num context h p

    -- What each decision means.
    pub data Verdict : ExperimentValidationDecision → Type 0 where
      accepted : IsValidated → context.opportunity_gap.sample_status ≡ sufficient → Verdict accept
      postponed :
          IsValidated → context.opportunity_gap.sample_status ≢ sufficient → Verdict needs_more_data
      blocked : ¬ IsValidated → Verdict block

    abbrev Decided : Outcome ResultFailure ExperimentValidationResult → Type 0
    Decided o = (r : ExperimentValidationResult) × (o ≡ ok r) × Verdict r.decision

    module _ (h : InterventionHypothesis N) (p : ExperimentPlan N)
        (hypothesis_is : hypothesis ≡ some h) (plan_is : plan ≡ some p)
        (context_taken : parse_context sorting num context ≡ ok context)
        (hypothesis_taken : hypothesis_schema num h ≡ true)
        (plan_taken : plan_schema num p ≡ true) where
      refs_nonempty : all nonempty p.evidence_refs ≡ true
      refs_nonempty = nonempty_texts-all p.evidence_refs (plan_schema_fields num p plan_taken).1

      validated : IsFit num context h p → IsValidated
      validated fit = record {
        h = h;
        p = p;
        hypothesis_is = hypothesis_is;
        plan_is = plan_is;
        context_taken = context_taken;
        hypothesis_taken = hypothesis_taken;
        plan_taken = plan_taken;
        fit = fit;
      }

      -- Only these two objects can be what is validated.
      IsFit-of : IsValidated → IsFit num context h p
      IsFit-of v =
          let same : v.h ≡ h = cc (v.hypothesis_is, hypothesis_is) in
          let same_plan : v.p ≡ p = cc (v.plan_is, plan_is) in
          subst (λ q. IsFit num context h q) same_plan
            (subst (λ g. IsFit num context g v.p) same v.fit)

      decide_on-Decided :
          (reasons : List Reason)
          → check_reasons num context h p ≡ reasons
          → All IsBlocking reasons
          → Decided (decide_on num context h p reasons)
      unfolding decide_on has_blocking_reason
      decide_on-Decided [] e b =
          let v =
            validated ((check_reasons-IsFit num context h p hypothesis_taken plan_taken).0 e) in
          let iff = is_sufficient_iff context.opportunity_gap.sample_status in
          let fits : String = "Experiment plan passed deterministic validation." in
          let weak : String =
            "Opportunity gap peer sample is not sufficient for a validated launch decision." in
          let few_reasons : List Reason = (weak_or_insufficient_sample, weak) ∷ [] in
          elim (Bool-cases (is_sufficient context.opportunity_gap.sample_status)) [
            | inl enough ↦ (
              made accept [] (fits ∷ []) p.evidence_refs,
              rw enough (result_ok accept [] (fits ∷ []) p.evidence_refs refl refs_nonempty),
              accepted v (iff.0 enough),
            )
            | inr few ↦ (
              made needs_more_data few_reasons (weak ∷ []) p.evidence_refs,
              rw few (
                  result_ok needs_more_data few_reasons (weak ∷ []) p.evidence_refs refl
                    refs_nonempty),
              postponed v (λ same. cc (iff.1 same, few)),
            )
          ]
      decide_on-Decided (r ∷ rs) e b = (
        made block (r ∷ rs) (map (λ reason. reason.1) (r ∷ rs)) p.evidence_refs,
        rw (has_blocking_reason-cons r rs b) (
            result_ok block (r ∷ rs) (map (λ reason. reason.1) (r ∷ rs)) p.evidence_refs
              (messages_nonempty (r ∷ rs) b) refs_nonempty),
        blocked (λ v.
            cc (
              e,
              (check_reasons-IsFit num context h p hypothesis_taken plan_taken).1 (IsFit-of v),
            )),
      )

    schema_failure-Decided :
        (refs : List String)
        → all nonempty refs ≡ true
        → ¬ IsValidated
        → Decided (schema_failure sorting num refs)
    schema_failure-Decided refs h unfit =
        let message : String =
          "Context, hypothesis, and experiment plan must satisfy deterministic schemas." in
        let reasons : List Reason = (schema_invalid, message) ∷ [] in
        (
          made block reasons (message ∷ []) refs,
          result_ok block reasons (message ∷ []) refs refl h,
          blocked unfit,
        )

    -- The validator always returns, and its decision says: accept, that the context, the
    -- hypothesis and the plan satisfy their schemas and fit together and that the peer sample is
    -- sufficient; needs_more_data, that all of this holds but that the sample is not sufficient;
    -- block, that they do not satisfy their schemas or do not fit.
    pub validate_experiment_plan-Verdict :
        (r : ExperimentValidationResult) × (validate_experiment_plan sorting num context hypothesis
            plan
          ≡ ok r)
        × Verdict r.decision
    unfolding validate_experiment_plan decide_parsed
    validate_experiment_plan-Verdict = elim (Outcome-cases (parse_context sorting num context)) [
      | inr (x, failed) ↦
          let unfit : ¬ IsValidated = λ v. cc (failed, v.context_taken) in
          rw failed (schema_failure-Decided [] refl unfit)
      | inl (c, parses) ↦
          let (same, taken, _) = parse_context_ok sorting num context parses in
          let here : parse_context sorting num context ≡ ok context = parses ∙ ap ok same in
          let refs =
            nonempty_texts-all context.evidence_refs
              (bundle_refs_nonempty sorting num context taken) in
          elim (parsed-cases (hypothesis_schema num) hypothesis) [
            | inl (lost, refused) ↦
                let unfit : ¬ IsValidated =
                  λ v. cc (refused v.h v.hypothesis_is, v.hypothesis_taken) in
                rw (here, lost) (schema_failure-Decided context.evidence_refs refs unfit)
            | inr (h, found, hypothesis_is, hypothesis_taken) ↦
                elim (parsed-cases (plan_schema num) plan) [
                  | inl (lost, refused) ↦
                      let unfit : ¬ IsValidated = λ v. cc (refused v.p v.plan_is, v.plan_taken) in
                      rw (here, found, lost)
                        (schema_failure-Decided context.evidence_refs refs unfit)
                  | inr (p, seen, plan_is, plan_taken) ↦
                      rw (here, found, seen)
                        (decide_on-Decided h p hypothesis_is plan_is here hypothesis_taken
                          plan_taken (check_reasons num context h p) refl
                          (check_reasons-IsBlocking num context h p))
                ]
          ]
    ]
