-- ===== src/Ingestion/Store.antt =====
-- src/ingestion/raw-event-store.ts: the in-memory store of accepted and of invalid events.
-- `new Date().toISOString()` is the argument `now`. A payload is a value of any type `P`. The key
-- that the source makes by `JSON.stringify` of an array of texts is that list of texts.
pub mod Identity
pub mod Cases
pub mod Consistent
pub mod Redelivery
use data_dyna.Base.{
  String, Option, none, some, List, [], ◌∷◌, ◌++◌, map, Bool, true, false, ◌&&◌, ◌==◌, string_eq,
  list_eq, coalesce, Assoc, lookup, insert, Outcome, ok, thrown, if◌then◌else◌,
}
use data_dyna.Contract.{
  DataDynaEvent, Fields, EventSource, EventDomain, EventName, Environment, EntityType,
  IdempotencyScope, source_text, environment_text, scope_text,
}

pub record RawEventRecord : Type 0 where
  pub event_id : String
  pub idempotency_key : String
  pub idempotency_scope : IdempotencyScope
  pub source : EventSource
  pub domain : EventDomain
  pub name : EventName
  pub occurred_at : String
  pub received_at : String
  pub producer_service : String
  pub producer_environment : Option Environment
  pub credential_id : Option String
  pub brand_id : Option String
  pub merchant_id : Option String
  pub store_id : Option String
  pub entity_type : EntityType
  pub entity_id : String
  pub properties : Fields
  pub event : DataDynaEvent

pub record InvalidRawEventAuditContext : Type 0 where
  pub credential_id : Option String
  pub merchant_id : Option String
  pub store_id : Option String
  pub producer_service : Option String
  pub producer_environment : Option String
  pub source : Option String
  pub reason_code : Option String

pub record InvalidRawEventRecord (P : Type 0) : Type 0 where
  pub received_at : String
  pub reason : String
  pub payload : P
  pub audit : InvalidRawEventAuditContext

pub record PersistAcceptedResult : Type 0 where
  pub row : RawEventRecord
  pub duplicate : Bool

-- The thrown `Error`: the event id is taken by another tenant's idempotency identity.
pub data StoreError : Type 0 where
  event_id_conflict : String → StoreError

pub record RawEventStore (P : Type 0) : Type 0 where
  pub accepted_by_identity : Assoc (List String) RawEventRecord
  pub accepted_by_event_id : Assoc String RawEventRecord
  pub invalid_events : List (InvalidRawEventRecord P)

abbrev pub empty_audit : InvalidRawEventAuditContext
empty_audit = record {
  credential_id = none;
  merchant_id = none;
  store_id = none;
  producer_service = none;
  producer_environment = none;
  source = none;
  reason_code = none;
}

abbrev pub environment_or_empty : Option Environment → String
environment_or_empty none = ""
environment_or_empty (some e) = environment_text e

unfoldable pub raw_event_idempotency_identity : DataDynaEvent → List String
raw_event_idempotency_identity event =
    coalesce event.identity.merchant_id ""
    ∷ coalesce event.identity.store_id ""
    ∷ event.producer.service
    ∷ environment_or_empty event.producer.environment
    ∷ source_text event.source
    ∷ scope_text event.idempotency.scope
    ∷ event.idempotency.key
    ∷ []

unfoldable pub record_matches_tenant_idempotency : RawEventRecord → DataDynaEvent → Bool
record_matches_tenant_idempotency r event =
    coalesce r.merchant_id "" == coalesce event.identity.merchant_id ""
    && coalesce r.store_id "" == coalesce event.identity.store_id ""
    && r.producer_service == event.producer.service
    && environment_or_empty r.producer_environment
      == environment_or_empty event.producer.environment
    && source_text r.source == source_text event.source
    && scope_text r.idempotency_scope == scope_text event.idempotency.scope
    && r.idempotency_key == event.idempotency.key

unfoldable pub to_record : DataDynaEvent → Option String → String → RawEventRecord
to_record event credential now = record {
  event_id = event.correlation.event_id;
  idempotency_key = event.idempotency.key;
  idempotency_scope = event.idempotency.scope;
  source = event.source;
  domain = event.domain;
  name = event.name;
  occurred_at = event.occurred_at;
  received_at = now;
  producer_service = event.producer.service;
  producer_environment = event.producer.environment;
  credential_id = credential;
  brand_id = event.identity.brand_id;
  merchant_id = event.identity.merchant_id;
  store_id = event.identity.store_id;
  entity_type = event.entity.type;
  entity_id = event.entity.id;
  properties = event.properties;
  event = event;
}

abbrev pub reused : RawEventRecord → Outcome StoreError PersistAcceptedResult
reused r = ok (record { row = r; duplicate = true })

module _ {P : Type 0} where
  unfoldable pub empty_store : RawEventStore P
  empty_store = record { accepted_by_identity = []; accepted_by_event_id = []; invalid_events = [] }

  unfoldable pub insert_accepted : RawEventStore P → List String → RawEventRecord → RawEventStore P
  insert_accepted s identity r = record s {
    accepted_by_identity = insert identity r s.accepted_by_identity;
    accepted_by_event_id = insert r.event_id r s.accepted_by_event_id;
  }

  unfoldable pub persist_accepted :
      RawEventStore P
      → DataDynaEvent
      → Option String
      → String
      → RawEventStore P × Outcome StoreError PersistAcceptedResult
  unfolding insert_accepted
  persist_accepted s event credential now =
      let event_id = event.correlation.event_id in
      let identity = raw_event_idempotency_identity event in
      let r = to_record event credential now in
      elim (lookup event_id s.accepted_by_event_id) [
        | some existing ↦
            if record_matches_tenant_idempotency existing event
            then (s, reused existing)
            else (s, thrown (event_id_conflict event_id))
        | none ↦ elim (lookup identity s.accepted_by_identity) [
          | some existing ↦ (s, reused existing)
          | none ↦ (insert_accepted s identity r, ok (record { row = r; duplicate = false }))
        ]
      ]

  unfoldable pub persist_invalid :
      RawEventStore P
      → P
      → String
      → Option InvalidRawEventAuditContext
      → String
      → RawEventStore P × InvalidRawEventRecord P
  persist_invalid s payload reason audit now =
      let r : InvalidRawEventRecord P = record {
        received_at = now;
        reason = reason;
        payload = payload;
        audit = coalesce audit empty_audit;
      } in
      (record s { invalid_events = s.invalid_events ++ r ∷ [] }, r)

  unfoldable pub accepted : RawEventStore P → List RawEventRecord
  accepted s = map (λ entry. entry.1) s.accepted_by_identity

  unfoldable pub invalid : RawEventStore P → List (InvalidRawEventRecord P)
  invalid s = s.invalid_events
