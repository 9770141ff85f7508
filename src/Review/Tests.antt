-- ===== src/Review/Tests.antt =====
-- The theorems on the life of an action at concrete records.
use data_dyna.Base.{
  String, Option, none, some, List, [], ◌∷◌, Bool, true, ◌≡◌, ◌≤◌, ◌↔◌, refl, arith, ok, any,
  length,
}
use data_dyna.Contract.{EventName}
use data_dyna.Review.{
  MerchantReviewActor, MerchantReviewActorType, ActionLifecycleState, drafted, accepted, applied,
  measured, ActionLifecycleInput, record_action_lifecycle_transition,
}
use data_dyna.Ingestion.Handlers.{
  AuthenticatedIngestionContext, tenant_identity_required, validate_tenant_policy,
}
use data_dyna.Review.Decisions.{
  RejectionReasonCode, MerchantReviewSubmission, MerchantReviewDecisionBase, PreferenceCandidate,
  PreferenceConfirmation, Schemas, decision_base, reject_experiment_review,
  create_preference_candidate_from_rejection, confirm_merchant_preference,
}
use data_dyna.Review.Events.{
  MerchantActionInput, merchant_action_event, build_mobile_hq_merchant_action_event,
  validate-build_mobile_hq_merchant_action_event,
}
use data_dyna.Review.Preferences.{confirmed_traces}
use data_dyna.Review.Lifecycle.{
  IsPermitted, IsTrail, is_consented, record_action_lifecycle_transition_iff, trail_bounded,
  trail_consented,
}

abbrev step_record :
    ActionLifecycleState
    → ActionLifecycleState
    → Option EventName
    → Option String
    → ActionLifecycleInput
step_record from_state to_state event_name reference = record {
  lifecycle_record_id = "l1";
  review_id = "r1";
  experiment_plan_id = "p1";
  brand_id = "b1";
  store_id = "s1";
  event_name = event_name;
  occurred_at = "2026-01-01T00:00:00Z";
  actor = record {
    actor_type = MerchantReviewActorType.merchant;
    actor_id = "a1";
    display_name = none;
  };
  from_state = from_state;
  to_state = to_state;
  acceptance_decision_id = reference;
  rollback_ref = reference;
  evidence_refs = "e1" ∷ [];
}

abbrev application : ActionLifecycleInput
application = step_record accepted applied (some EventName.experiment_applied_recorded) (some "d1")

abbrev history : List ActionLifecycleInput
history =
    step_record drafted accepted none none
    ∷ application
    ∷ step_record applied measured none none
    ∷ []

abbrev any_base : ActionLifecycleInput → Bool
any_base r = true

history-IsTrail : IsTrail any_base drafted measured history
unfolding IsTrail record_action_lifecycle_transition
history-IsTrail = (refl, refl, (refl, refl, (refl, refl, refl)))

record_action_lifecycle_transition_iff_example :
    (record_action_lifecycle_transition any_base application ≡ ok application)
    ↔ ((any_base application ≡ true) × IsPermitted application)
record_action_lifecycle_transition_iff_example =
    record_action_lifecycle_transition_iff any_base application

trail_bounded_example : length history ≤ 5
trail_bounded_example = trail_bounded any_base drafted measured history history-IsTrail

trail_consented_example : any is_consented history ≡ true
trail_consented_example =
    trail_consented any_base drafted measured history history-IsTrail (omega arith) (omega arith)

abbrev owner : MerchantReviewActor
owner = record {
  actor_type = MerchantReviewActorType.merchant;
  actor_id = "m1";
  display_name = none;
}

abbrev submission : MerchantReviewSubmission
submission = record {
  review_id = "r1";
  experiment_plan_id = "p1";
  hypothesis_id = "h1";
  agent_run_id = "g1";
  brand_id = "b1";
  store_id = "s1";
  opportunity_gap_id = "o1";
  submitted_at = "t0";
  submitted_by = owner;
  evidence_refs = "e1" ∷ [];
}

abbrev rejection : MerchantReviewDecisionBase
rejection = record {
  decision_id = "d1";
  review_id = "r1";
  experiment_plan_id = "p1";
  brand_id = "b1";
  store_id = "s1";
  decided_at = "t1";
  actor = owner;
  evidence_refs = "e1" ∷ [];
}

abbrev candidate : PreferenceCandidate
candidate = record {
  preference_candidate_id = "c1";
  review_id = "r1";
  experiment_plan_id = "p1";
  brand_id = "b1";
  store_id = "s1";
  rejection_decision_id = "d1";
  candidate_key = "discounts";
  candidate_value = "never";
  reason_text = "no discounts";
  created_at = "t2";
  evidence_refs = "e1" ∷ [];
}

abbrev confirmation : PreferenceConfirmation
confirmation = record {
  preference_id = "f1";
  preference_candidate_id = "c1";
  brand_id = "b1";
  store_id = "s1";
  preference_key = "discounts";
  preference_value = "never";
  confirmed_at = "t3";
  confirmed_by = owner;
  evidence_refs = "e1" ∷ [];
}

abbrev lenient : Schemas
lenient = record {
  takes_decision = λ d. true;
  takes_candidate = λ c. true;
  takes_confirmation = λ c. true;
}

confirmed_traces_example :
    (confirmation.brand_id ≡ submission.brand_id)
    × (confirmation.store_id ≡ submission.store_id)
    × (confirmation.evidence_refs ≡ submission.evidence_refs)
    × (confirmation.preference_key ≡ "discounts")
    × (confirmation.preference_value ≡ "never")
    × (candidate.review_id ≡ submission.review_id)
    × (candidate.rejection_decision_id ≡ "d1")
unfolding reject_experiment_review create_preference_candidate_from_rejection
    confirm_merchant_preference decision_base
confirmed_traces_example =
    confirmed_traces lenient submission "d1" "t1" owner RejectionReasonCode.merchant_constraint
      "no discounts" rejection "c1" "discounts" "never" "t2" candidate "f1" "t3" owner confirmation
      refl refl refl

abbrev viewed : MerchantActionInput
viewed = record {
  name = EventName.experiment_review_viewed;
  event_id = "e1";
  occurred_at = "t1";
  producer_service = "mobile-api";
  brand_id = "b1";
  store_id = "s1";
  actor_id = "m1";
  experiment_plan_id = "p1";
  review_id = some "r1";
  preference_id = none;
  properties = none;
}

abbrev credential : AuthenticatedIngestionContext
credential = record {
  credential_id = "c1";
  merchant_id = "m1";
  store_ids = "s1" ∷ [];
  producer_service = "mobile-api";
  producer_environment = "test";
  source = "mobile_hq";
}

validate-build_mobile_hq_merchant_action_event_example :
    validate_tenant_policy (merchant_action_event viewed) credential
    ≡ some (record {
      status = 400;
      code = tenant_identity_required;
      message = "Tenant identity required";
    })
unfolding build_mobile_hq_merchant_action_event
validate-build_mobile_hq_merchant_action_event_example =
    validate-build_mobile_hq_merchant_action_event (λ e. true) viewed (merchant_action_event viewed)
      credential refl
