-- ===== src/Ingestion/Tests.antt =====
-- The theorems on ingestion at concrete events.
use data_dyna.Base.{
  ◌++◌, ◌↔◌, insert, ℕ, ◌+◌, String, none, some, List, [], ◌∷◌, map, true, false, ◌≡◌, ◌≢◌, ◌↔◌,
  inl, refl, thrown, lookup, string_eq, list_eq, length,
}
use data_dyna.Contract.{
  DataDynaEvent, EventSource, EventDomain, EventName, Environment, ActorType, EntityType,
  IdempotencyScope, end,
}
use data_dyna.Ingestion.Store.{
  RawEventRecord, RawEventStore, StoreError, event_id_conflict, empty_store, to_record,
  persist_accepted, raw_event_idempotency_identity, record_matches_tenant_idempotency, reused,
  insert_accepted,
}
use data_dyna.Ingestion.Store.Identity.{record_identity, record_matches-identity}
use data_dyna.Ingestion.Store.Consistent.{
  IsConsistent, empty_store-IsConsistent, persist_accepted-IsConsistent,
}
use data_dyna.Ingestion.Store.Redelivery.{
  persist_accepted_filed, persist_accepted_again, persist_accepted_keeps, persist_accepted_growth,
  persist_accepted_conflict,
}
use data_dyna.Ingestion.Handlers.{
  Payloads, ParseResult, success, failure, AuthenticatedIngestionContext, Ingestion,
  EventIngestionResult, accepted_event, handle_post_event, handle_each, handle_post_events_batch,
  handle_parsed, accept_event, validate_tenant_policy,
}
use data_dyna.Ingestion.Handlers.Tenancy.{IsOwn, handle_post_event-IsOwn}
use data_dyna.Ingestion.Handlers.Audit.{Leaves, handle_post_event-Leaves}
use data_dyna.Ingestion.Handlers.Batch.{
  batch-IsConsistent, batch_keeps_filed, batch-audit, rejections,
}

abbrev pub sample_event : String → String → DataDynaEvent
sample_event event_id key = record {
  source = EventSource.pos;
  domain = EventDomain.transaction_scene;
  name = EventName.order_paid;
  occurred_at = "2026-01-01T00:00:00Z";
  producer = record {
    service = "pos-api";
    app = none;
    environment = some Environment.test;
    emitted_at = "2026-01-01T00:00:00Z";
    schema_ref = none;
  };
  identity = record {
    brand_id = none;
    store_id = some "s1";
    merchant_id = some "m1";
    member_id = none;
    customer_id = none;
    device_id = none;
    actor_type = some ActorType.cashier;
  };
  correlation = record {
    event_id = event_id;
    trace_id = none;
    session_id = none;
    request_id = none;
    causation_id = none;
    correlation_id = none;
  };
  entity = record { type = EntityType.order; id = "o1"; version = none };
  properties = end;
  idempotency = record { key = key; scope = IdempotencyScope.store };
}

abbrev pub paid : DataDynaEvent
paid = sample_event "e1" "k1"

-- Another event under the same key, and another key under the same event id.
abbrev pub paid_again : DataDynaEvent
paid_again = sample_event "e2" "k1"

abbrev pub clashing : DataDynaEvent
clashing = sample_event "e1" "k2"

abbrev credential : AuthenticatedIngestionContext
credential = record {
  credential_id = "c1";
  merchant_id = "m1";
  store_ids = "s1" ∷ [];
  producer_service = "pos-api";
  producer_environment = "test";
  source = "pos";
}

-- A payload is a list of parsed events; a list of one is an event.
abbrev sole : List ParseResult → ParseResult
sole (p ∷ []) = p
sole _ = failure ("no event" ∷ [])

abbrev samples : Payloads
samples = record {
  Payload = List ParseResult;
  safe_parse = sole;
  as_array = λ ps. some (map (λ p. p ∷ []) ps);
  of_event = λ e. success e ∷ [];
}

abbrev no_events : Ingestion (List ParseResult)
no_events = record { store = empty_store; sink = some [] }

abbrev paid_record : RawEventRecord
paid_record = to_record paid none "t0"

abbrev one_event : RawEventStore (List ParseResult)
one_event = (persist_accepted empty_store paid none "t0").0

abbrev sample_key : List String
sample_key = raw_event_idempotency_identity paid

abbrev sample_batch : List ParseResult
sample_batch = success paid ∷ failure ("bad" ∷ []) ∷ success paid_again ∷ []

abbrev clock : ℕ → String
clock i = "t1"

abbrev two_results : List (EventIngestionResult (List ParseResult))
two_results =
    accepted_event false (to_record paid none "t1")
    ∷ accepted_event true (to_record paid none "t1")
    ∷ []

empty : IsConsistent (empty_store {P = List ParseResult})
empty = empty_store-IsConsistent

record_matches-identity_example :
    (record_matches_tenant_idempotency paid_record paid_again ≡ true)
    ↔ (record_identity paid_record ≡ raw_event_idempotency_identity paid_again)
record_matches-identity_example = record_matches-identity paid_record paid_again

persist_accepted-IsConsistent_example :
    IsConsistent (persist_accepted (empty_store {P = List ParseResult}) paid none "t0").0
persist_accepted-IsConsistent_example =
    persist_accepted-IsConsistent empty_store paid none "t0" empty

persist_accepted_filed_example :
    let t = (persist_accepted (empty_store {P = List ParseResult}) paid none "t0").0 in
    (record_identity paid_record ≡ raw_event_idempotency_identity paid)
    × (lookup (raw_event_idempotency_identity paid) t.accepted_by_identity ≡ some paid_record)
    × (lookup paid_record.event_id t.accepted_by_event_id ≡ some paid_record)
unfolding persist_accepted empty_store lookup
persist_accepted_filed_example =
    persist_accepted_filed empty_store paid none "t0"
      (record { row = paid_record; duplicate = false }) empty refl

persist_accepted_again_example :
    persist_accepted one_event paid_again (some "c9") "t5" ≡ (one_event, reused paid_record)
unfolding persist_accepted empty_store lookup insert_accepted raw_event_idempotency_identity insert
    to_record
persist_accepted_again_example =
    persist_accepted_again empty_store paid paid_again none (some "c9") "t0" "t5"
      (record { row = paid_record; duplicate = false }) empty refl refl (inl refl)

persist_accepted_keeps_example :
    lookup sample_key (persist_accepted one_event clashing none "t5").0.accepted_by_identity
    ≡ some paid_record
unfolding lookup persist_accepted empty_store insert_accepted raw_event_idempotency_identity insert
persist_accepted_keeps_example =
    persist_accepted_keeps one_event clashing none "t5" sample_key paid_record refl

persist_accepted_growth_example :
    length (persist_accepted one_event paid_again none "t5").0.accepted_by_identity
    ≡ length one_event.accepted_by_identity + 0
unfolding lookup persist_accepted empty_store insert_accepted raw_event_idempotency_identity insert
    to_record
persist_accepted_growth_example =
    persist_accepted_growth one_event paid_again none "t5"
      (record { row = paid_record; duplicate = true }) refl

persist_accepted_conflict_example :
    let Taken =
      (r : RawEventRecord) × (lookup "e1" one_event.accepted_by_event_id ≡ some r)
      × (record_identity r ≢ raw_event_idempotency_identity clashing) in
    ((x : StoreError) → (persist_accepted one_event clashing none "t5").1 ≡ thrown x → Taken)
    × (Taken
        → persist_accepted one_event clashing none "t5"
          ≡ (one_event, thrown (event_id_conflict "e1")))
persist_accepted_conflict_example = persist_accepted_conflict one_event clashing none "t5"

handle_post_event-IsOwn_example : IsOwn credential (to_record paid (some "c1") "t0")
unfolding handle_post_event handle_parsed validate_tenant_policy accept_event persist_accepted
    to_record empty_store lookup
handle_post_event-IsOwn_example =
    handle_post_event-IsOwn samples no_events (success paid ∷ []) credential "t0" false
      (to_record paid (some "c1") "t0") empty refl

handle_post_event-Leaves_example :
    Leaves no_events
      (handle_post_event samples no_events (success paid ∷ []) (some credential) "t0")
handle_post_event-Leaves_example =
    handle_post_event-Leaves samples no_events (success paid ∷ []) (some credential) "t0"

batch-IsConsistent_example :
    IsConsistent (handle_post_events_batch samples no_events sample_batch none clock).0.store
batch-IsConsistent_example = batch-IsConsistent samples no_events sample_batch none clock empty

batch_keeps_filed_example :
    let s = record no_events { store = one_event } in
    lookup sample_key
      (handle_post_events_batch samples s sample_batch none clock).0.store.accepted_by_identity
    ≡ some paid_record
unfolding lookup persist_accepted empty_store insert_accepted raw_event_idempotency_identity insert
batch_keeps_filed_example =
    batch_keeps_filed samples (record no_events { store = one_event }) sample_batch none clock
      sample_key paid_record refl

batch-audit_example :
    (length {A = EventIngestionResult (List ParseResult)} two_results ≡ 2)
    × ((handle_post_events_batch samples no_events
          (success paid ∷ success paid_again ∷ [])
          none
          clock).0.store.invalid_events
        ≡ no_events.store.invalid_events ++ rejections samples two_results)
    × ((true ≡ true) ↔ (rejections samples two_results ≡ []))
unfolding handle_post_events_batch handle_each handle_post_event handle_parsed accept_event
    persist_accepted insert_accepted to_record empty_store lookup insert
    raw_event_idempotency_identity
batch-audit_example =
    batch-audit samples no_events (success paid ∷ success paid_again ∷ [])
      ((success paid ∷ []) ∷ (success paid_again ∷ []) ∷ []) none clock true two_results refl refl
