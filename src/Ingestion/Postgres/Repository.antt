-- ===== src/Ingestion/Postgres/Repository.antt =====
-- `PostgresRawEventRepository` of src/app/repositories/postgres-raw-event-repository.ts.
-- An operation gives the tables that it leaves and what it returns or throws.
use data_dyna.Base.{
  String, Option, none, some, List, [], ◌∷◌, ◌++◌, Bool, true, false, ◌||◌, string_eq, list_eq,
  coalesce, any, find?, head?, Outcome, ok, thrown, ◌>>=◌, or_throw, if◌then◌else◌,
}
use data_dyna.Contract.{DataDynaEvent, Fields}
use data_dyna.Ingestion.Store.{
  RawEventRecord, InvalidRawEventRecord, InvalidRawEventAuditContext, PersistAcceptedResult,
  empty_audit,
}
use data_dyna.Ingestion.Postgres.{
  Timestamp, PostgresError, unique_violation, refused_value, no_row, PostgresDatabase, RawEventRow,
  InvalidRawEventRow, RawEventTables, stringify_jsonb, is_unique_violation, record_matches,
  to_raw_event_record, to_invalid_raw_event_record, tenant_index_key, has_event_id, has_index_key,
  has_tenant_idempotency,
}

unfoldable pub to_row :
    {D : Type 0}
    → DataDynaEvent
    → Option String
    → (occurred received : Timestamp D) → Fields
    → DataDynaEvent
    → RawEventRow D
to_row event credential occurred received properties whole = record {
  event_id = event.correlation.event_id;
  idempotency_key = event.idempotency.key;
  idempotency_scope = event.idempotency.scope;
  source = event.source;
  domain = event.domain;
  name = event.name;
  occurred_at = occurred;
  received_at = received;
  producer_service = event.producer.service;
  producer_environment = event.producer.environment;
  credential_id = credential;
  brand_id = event.identity.brand_id;
  merchant_id = event.identity.merchant_id;
  store_id = event.identity.store_id;
  entity_type = event.entity.type;
  entity_id = event.entity.id;
  properties = properties;
  event = whole;
}

module _ {P : Type 0} (db : PostgresDatabase P) where
  abbrev pub Tables : Type 0
  Tables = RawEventTables P db.Date

  unfoldable pub empty_tables : Tables
  empty_tables = record { raw_events = []; invalid_raw_events = [] }

  -- Whether the primary key or the unique index has the row's value.
  unfoldable pub violates_unique : List (RawEventRow db.Date) → RawEventRow db.Date → Bool
  violates_unique rows row =
      any (has_event_id row.event_id) rows || any (has_index_key (tenant_index_key row)) rows

  -- The row of the `INSERT`, with the values as the columns take them.
  unfoldable pub inserted_row :
      DataDynaEvent
      → Option String
      → Timestamp db.Date
      → Outcome PostgresError (RawEventRow db.Date)
  unfolding stringify_jsonb to_row
  inserted_row event credential now = do
    let properties_column = db.properties_column
    let event_column = db.event_column
    properties_text ← stringify_jsonb properties_column event.properties "accepted event properties"
    event_text ← stringify_jsonb event_column event "accepted event"
    occurred ← or_throw (db.timestamptz event.occurred_at) (refused_value "occurred_at")
    properties ← or_throw (properties_column.stored properties_text) (refused_value "properties")
    whole ← or_throw (event_column.stored event_text) (refused_value "event")
    ok (to_row event credential occurred now properties whole)

  -- `INSERT INTO raw_events … RETURNING`.
  unfoldable pub insert_raw_event :
      Tables
      → Outcome PostgresError (RawEventRow db.Date)
      → Tables × Outcome PostgresError (List (RawEventRow db.Date))
  unfolding violates_unique
  insert_raw_event t (thrown x) = (t, thrown x)
  insert_raw_event t (ok row) =
      if violates_unique t.raw_events row
      then (t, thrown unique_violation)
      else (record t { raw_events = t.raw_events ++ row ∷ [] }, ok (row ∷ []))

  unfoldable pub first_record : List (RawEventRow db.Date) → Outcome PostgresError RawEventRecord
  first_record rows = or_throw (head? rows) no_row >>= to_raw_event_record db

  unfoldable pub found_record :
      Option (RawEventRow db.Date) → Outcome PostgresError (Option RawEventRecord)
  found_record none = ok none
  found_record (some row) = to_raw_event_record db row >>= λ r. ok (some r)

  unfoldable pub find_by_event_id : Tables → String → Outcome PostgresError (Option RawEventRecord)
  unfolding found_record
  find_by_event_id t event_id = found_record (find? (has_event_id event_id) t.raw_events)

  unfoldable pub find_by_tenant_idempotency :
      Tables → DataDynaEvent → Outcome PostgresError (Option RawEventRecord)
  unfolding found_record has_tenant_idempotency
  find_by_tenant_idempotency t event =
      found_record (find? (has_tenant_idempotency event) t.raw_events)

  unfoldable pub rethrow_unless_same :
      Option RawEventRecord → DataDynaEvent → PostgresError → Outcome PostgresError (Unit {0})
  unfolding record_matches
  rethrow_unless_same none event x = ok tt
  rethrow_unless_same (some r) event x = if record_matches r event then ok tt else thrown x

  unfoldable pub reused_or_rethrow :
      Option RawEventRecord → PostgresError → Outcome PostgresError PersistAcceptedResult
  reused_or_rethrow none x = thrown x
  reused_or_rethrow (some r) x = ok (record { row = r; duplicate = true })

  -- The `catch` of `persistAccepted`.
  unfoldable pub recover :
      Tables → DataDynaEvent → PostgresError → Outcome PostgresError PersistAcceptedResult
  unfolding is_unique_violation find_by_event_id find_by_tenant_idempotency rethrow_unless_same
      reused_or_rethrow
  recover t event x =
      if is_unique_violation x
      then (do
        by_event_id ← find_by_event_id t event.correlation.event_id
        _ ← rethrow_unless_same by_event_id event x
        existing ← find_by_tenant_idempotency t event
        reused_or_rethrow existing x)
      else thrown x

  -- The rest of the `try` and the `catch` that it falls into.
  unfoldable pub after_insert :
      DataDynaEvent
      → Tables × Outcome PostgresError (List (RawEventRow db.Date))
      → Tables × Outcome PostgresError PersistAcceptedResult
  after_insert event (t, inserted) = elim (inserted >>= first_record) [
    | ok r ↦ (t, ok (record { row = r; duplicate = false }))
    | thrown x ↦ (t, recover t event x)
  ]

  unfoldable pub persist_accepted :
      Tables
      → DataDynaEvent
      → Option String
      → Timestamp db.Date
      → Tables × Outcome PostgresError PersistAcceptedResult
  persist_accepted t event credential now =
      after_insert event (insert_raw_event t (inserted_row event credential now))

  unfoldable pub stored_payload : P → Outcome PostgresError P
  unfolding stringify_jsonb
  stored_payload payload = do
    let column = db.payload_column
    payload_text ← stringify_jsonb column payload "invalid raw event payload"
    or_throw (column.stored payload_text) (refused_value "payload")

  unfoldable pub to_invalid_row :
      P
      → String
      → Option InvalidRawEventAuditContext
      → Timestamp db.Date
      → InvalidRawEventRow P db.Date
  to_invalid_row payload reason audit now = record {
    received_at = now;
    reason = reason;
    payload = payload;
    audit = coalesce audit empty_audit;
  }

  -- `INSERT INTO invalid_raw_events … RETURNING`, whose row has no key to violate.
  unfoldable pub insert_invalid :
      Tables
      → String
      → Option InvalidRawEventAuditContext
      → Timestamp db.Date
      → Outcome PostgresError P
      → Tables × Outcome PostgresError (List (InvalidRawEventRow P db.Date))
  unfolding to_invalid_row
  insert_invalid t reason audit now (thrown x) = (t, thrown x)
  insert_invalid t reason audit now (ok payload) =
      let row = to_invalid_row payload reason audit now in
      (record t { invalid_raw_events = t.invalid_raw_events ++ row ∷ [] }, ok (row ∷ []))

  unfoldable pub returned_invalid :
      Tables × Outcome PostgresError (List (InvalidRawEventRow P db.Date))
      → Tables × Outcome PostgresError (InvalidRawEventRecord P)
  returned_invalid (t, inserted) =
      (t, inserted >>= λ rows. or_throw (head? rows) no_row >>= to_invalid_raw_event_record db)

  unfoldable pub persist_invalid :
      Tables
      → P
      → String
      → Option InvalidRawEventAuditContext
      → Timestamp db.Date
      → Tables × Outcome PostgresError (InvalidRawEventRecord P)
  persist_invalid t payload reason audit now =
      returned_invalid (insert_invalid t reason audit now (stored_payload payload))
