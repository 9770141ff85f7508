-- ===== src/Review/Events.antt =====
-- `buildMobileHqMerchantActionEvent` of src/merchant-review/experiment-review.ts, and what the
-- ingestion of src/ingestion/event-handlers.ts makes of its events.
use data_dyna.Base.{
  String, Option, none, some, Bool, ◌≡◌, arith, Outcome, ok, thrown, coalesce, if◌then◌else◌,
  Bool-cases, inl, inr,
}
use Prim.Native.String.{◌++◌ as string_append}
use data_dyna.Contract.{
  DataDynaEvent, EventSource, EventDomain, EventName, Environment, ActorType, EntityType, Entity,
  IdempotencyScope, Fields, end,
}
use data_dyna.Ingestion.Handlers.{
  AuthenticatedIngestionContext, tenant_identity_required, validate_tenant_policy,
}
use data_dyna.Review.{ParseFailure, base_rejected}

pub record MerchantActionInput : Type 0 where
  pub name : EventName
  pub event_id : String
  pub occurred_at : String
  pub producer_service : String
  pub brand_id : String
  pub store_id : String
  pub actor_id : String
  pub experiment_plan_id : String
  pub review_id : Option String
  pub preference_id : Option String
  pub properties : Option Fields

unfoldable pub merchant_review_event_entity : MerchantActionInput → EventName → Entity
merchant_review_event_entity input EventName.experiment_review_submitted = record {
  type = EntityType.experiment_review;
  id = coalesce input.review_id input.experiment_plan_id;
  version = none;
}
merchant_review_event_entity input EventName.experiment_review_viewed = record {
  type = EntityType.experiment_review;
  id = coalesce input.review_id input.experiment_plan_id;
  version = none;
}
merchant_review_event_entity input EventName.merchant_preference_confirmed = record {
  type = EntityType.merchant_preference;
  id = coalesce input.preference_id input.experiment_plan_id;
  version = none;
}
merchant_review_event_entity input _ = record {
  type = EntityType.experiment_plan;
  id = input.experiment_plan_id;
  version = none;
}

unfoldable pub merchant_action_event : MerchantActionInput → DataDynaEvent
unfolding merchant_review_event_entity
merchant_action_event input = record {
  source = EventSource.mobile_hq;
  domain = EventDomain.merchant_action;
  name = input.name;
  occurred_at = input.occurred_at;
  producer = record {
    service = input.producer_service;
    app = some "mobile-hq";
    environment = some Environment.test;
    emitted_at = input.occurred_at;
    schema_ref = some "data-dyna.event-contract.v1";
  };
  identity = record {
    brand_id = some input.brand_id;
    store_id = some input.store_id;
    merchant_id = some input.actor_id;
    member_id = none;
    customer_id = none;
    device_id = none;
    actor_type = some ActorType.merchant;
  };
  correlation = record {
    event_id = input.event_id;
    trace_id = none;
    session_id = none;
    request_id = none;
    causation_id = none;
    correlation_id = some input.experiment_plan_id;
  };
  entity = merchant_review_event_entity input input.name;
  properties = coalesce input.properties end;
  idempotency = record {
    key = string_append "mobile-hq:" input.event_id;
    scope = IdempotencyScope.producer;
  };
}

-- `takes` is whether zod's schema of an event takes it.
unfoldable pub build_mobile_hq_merchant_action_event :
    (DataDynaEvent → Bool) → MerchantActionInput → Outcome ParseFailure DataDynaEvent
unfolding merchant_action_event
build_mobile_hq_merchant_action_event takes input =
    if takes (merchant_action_event input)
    then ok (merchant_action_event input)
    else thrown base_rejected

-- Whatever its input, a merchant action event that is built and that the event schema takes is
-- refused by the tenant policy of ingestion, as lacking a tenant identity, for every credential.
pub validate-build_mobile_hq_merchant_action_event :
    (takes : DataDynaEvent → Bool) (input : MerchantActionInput) (event : DataDynaEvent)
    (context : AuthenticatedIngestionContext)
    → build_mobile_hq_merchant_action_event takes input ≡ ok event
    → validate_tenant_policy event context
      ≡ some (record {
        status = 400;
        code = tenant_identity_required;
        message = "Tenant identity required";
      })
unfolding build_mobile_hq_merchant_action_event merchant_action_event validate_tenant_policy
validate-build_mobile_hq_merchant_action_event takes input event context h =
    elim (Bool-cases (takes (merchant_action_event input))) [
      | inl taken ↦
          let same : merchant_action_event input ≡ event = cc (rw taken at h) in
          rw (← same) (ground arith)
      | inr refused ↦ absurd (cc (rw refused at h))
    ]
