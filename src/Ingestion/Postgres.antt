-- ===== src/Ingestion/Postgres.antt =====
-- src/app/repositories/postgres-raw-event-repository.ts over the tables of
-- migrations/0001_raw_events.sql and 0008_raw_event_tenancy.sql.
-- The client, `Date` and `JSON.stringify` are the parameter `PostgresDatabase`; a failure of the connection
-- is not modelled. Each statement runs by itself and is a function on the tables, with the primary
-- key and the unique index written out. The unique index and the parameters of a statement take
-- `NULL` for undefined. `contract_version` has one value only and is left out.
pub mod Repository
pub mod Refines
use data_dyna.Base.{
  String, Option, none, some, List, [], ◌∷◌, ◌++◌, Bool, true, false, not, ◌&&◌, ◌||◌, ◌==◌,
  string_eq, list_eq, option_beq, coalesce, any, find?, head?, Outcome, ok, thrown, ◌>>=◌, or_throw,
  if◌then◌else◌,
}
use data_dyna.Contract.{
  DataDynaEvent, Fields, EventSource, EventDomain, EventName, Environment, EntityType,
  IdempotencyScope, source_text, environment_text, scope_text,
}
use data_dyna.Ingestion.Store.{
  RawEventRecord, InvalidRawEventRecord, InvalidRawEventAuditContext, PersistAcceptedResult,
  empty_audit, environment_or_empty,
}

-- `Date | string`: a time as the client returns it.
pub data Timestamp (D : Type 0) : Type 0 where
  date : D → Timestamp D
  text : String → Timestamp D

pub data PostgresError : Type 0 where
  unique_violation : PostgresError
  refused_value : (column : String) → PostgresError
  no_row : PostgresError
  invalid_timestamp : (field : String) → PostgresError
  unstorable : (label : String) → (message : String) → PostgresError

-- `JSON.stringify`, which throws or gives a text or undefined, and the value that is read from a
-- `jsonb` column into which a text was written, if the database takes the text.
pub record Jsonb (A : Type 0) : Type 0 where
  pub stringify : A → Outcome String (Option String)
  pub stored : String → Option A

pub record PostgresDatabase (P : Type 0) : Type 1 where
  pub Date : Type 0
  pub to_iso_string : Date → String
  pub parse_date : String → Option Date
  pub timestamptz : String → Option (Timestamp Date)
  pub properties_column : Jsonb Fields
  pub event_column : Jsonb DataDynaEvent
  pub payload_column : Jsonb P

pub record RawEventRow (D : Type 0) : Type 0 where
  pub event_id : String
  pub idempotency_key : String
  pub idempotency_scope : IdempotencyScope
  pub source : EventSource
  pub domain : EventDomain
  pub name : EventName
  pub occurred_at : Timestamp D
  pub received_at : Timestamp D
  pub producer_service : String
  pub producer_environment : Option Environment
  pub credential_id : Option String
  pub brand_id : Option String
  pub merchant_id : Option String
  pub store_id : Option String
  pub entity_type : EntityType
  pub entity_id : String
  pub properties : Fields
  pub event : DataDynaEvent

pub record InvalidRawEventRow (P D : Type 0) : Type 0 where
  pub received_at : Timestamp D
  pub reason : String
  pub payload : P
  pub audit : InvalidRawEventAuditContext

pub record RawEventTables (P D : Type 0) : Type 0 where
  pub raw_events : List (RawEventRow D)
  pub invalid_raw_events : List (InvalidRawEventRow P D)

unfoldable pub stringify_jsonb : {A : Type 0} → Jsonb A → A → String → Outcome PostgresError String
stringify_jsonb column value label = elim (column.stringify value) [
  | thrown message ↦ thrown (unstorable label message)
  | ok written ↦ ok (coalesce written "null")
]

unfoldable pub is_unique_violation : PostgresError → Bool
is_unique_violation unique_violation = true
is_unique_violation (refused_value c) = false
is_unique_violation no_row = false
is_unique_violation (invalid_timestamp f) = false
is_unique_violation (unstorable l x) = false

unfoldable pub record_matches : RawEventRecord → DataDynaEvent → Bool
record_matches r event =
    coalesce r.merchant_id "" == coalesce event.identity.merchant_id ""
    && coalesce r.store_id "" == coalesce event.identity.store_id ""
    && r.producer_service == event.producer.service
    && environment_or_empty r.producer_environment
      == environment_or_empty event.producer.environment
    && source_text r.source == source_text event.source
    && scope_text r.idempotency_scope == scope_text event.idempotency.scope
    && r.idempotency_key == event.idempotency.key

-- The `null`s of a row become undefined by `?? undefined`; both are `none` here.
module _ {P : Type 0} (db : PostgresDatabase P) where
  unfoldable pub to_iso_timestamp : Timestamp db.Date → String → Outcome PostgresError String
  to_iso_timestamp (date d) field = ok (db.to_iso_string d)
  to_iso_timestamp (text value) field =
      or_throw (db.parse_date value) (invalid_timestamp field) >>= λ d. ok (db.to_iso_string d)

  unfoldable pub to_raw_event_record : RawEventRow db.Date → Outcome PostgresError RawEventRecord
  to_raw_event_record row = do
    occurred ← to_iso_timestamp row.occurred_at "occurred_at"
    received ← to_iso_timestamp row.received_at "received_at"
    ok (record {
      event_id = row.event_id;
      idempotency_key = row.idempotency_key;
      idempotency_scope = row.idempotency_scope;
      source = row.source;
      domain = row.domain;
      name = row.name;
      occurred_at = occurred;
      received_at = received;
      producer_service = row.producer_service;
      producer_environment = row.producer_environment;
      credential_id = row.credential_id;
      brand_id = row.brand_id;
      merchant_id = row.merchant_id;
      store_id = row.store_id;
      entity_type = row.entity_type;
      entity_id = row.entity_id;
      properties = row.properties;
      event = row.event;
    })

  unfoldable pub to_invalid_raw_event_record :
      InvalidRawEventRow P db.Date → Outcome PostgresError (InvalidRawEventRecord P)
  to_invalid_raw_event_record row = do
    received ← to_iso_timestamp row.received_at "received_at"
    ok (record {
      received_at = received;
      reason = row.reason;
      payload = row.payload;
      audit = row.audit;
    })

-- The columns of `raw_events_tenant_idempotency_unique_idx`.
unfoldable pub tenant_index_key : {D : Type 0} → RawEventRow D → List String
tenant_index_key row =
    coalesce row.merchant_id ""
    ∷ coalesce row.store_id ""
    ∷ row.producer_service
    ∷ environment_or_empty row.producer_environment
    ∷ source_text row.source
    ∷ scope_text row.idempotency_scope
    ∷ row.idempotency_key
    ∷ []

abbrev pub has_event_id : {D : Type 0} → String → RawEventRow D → Bool
has_event_id event_id row = row.event_id == event_id

abbrev pub has_index_key : {D : Type 0} → List String → RawEventRow D → Bool
has_index_key key row = tenant_index_key row == key

abbrev pub environment_column : Option Environment → Option String
environment_column none = none
environment_column (some e) = some (environment_text e)

-- The `WHERE` of `findByTenantIdempotency`.
unfoldable pub has_tenant_idempotency : {D : Type 0} → DataDynaEvent → RawEventRow D → Bool
has_tenant_idempotency event row =
    option_beq row.merchant_id event.identity.merchant_id
    && option_beq row.store_id event.identity.store_id
    && row.producer_service == event.producer.service
    && option_beq (environment_column row.producer_environment)
        (environment_column event.producer.environment)
    && source_text row.source == source_text event.source
    && scope_text row.idempotency_scope == scope_text event.idempotency.scope
    && row.idempotency_key == event.idempotency.key
