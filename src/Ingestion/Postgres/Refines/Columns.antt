-- ===== src/Ingestion/Postgres/Refines/Columns.antt =====
-- Rows of raw_events in postgres-raw-event-repository.ts: what is written and read back, and the
-- two tests of tenant idempotency, by `IS NOT DISTINCT FROM` and by the unique index.
use data_dyna.Base.{
  String, Option, none, some, ◌≡◌, ◌≢◌, refl, ◌==◌, string_eq, option_beq, coalesce, ok, arith,
  eq_iff,
}
use data_dyna.Contract.{DataDynaEvent, Environment, local, dev, test, staging, prod}
use data_dyna.Ingestion.Store.{to_record, environment_or_empty, raw_event_idempotency_identity}
use data_dyna.Ingestion.Postgres.{
  Timestamp, Jsonb, PostgresDatabase, RawEventRow, to_iso_timestamp, to_raw_event_record,
  tenant_index_key, has_index_key, has_tenant_idempotency, environment_column,
}
use data_dyna.Ingestion.Postgres.Repository.{to_row, inserted_row}

-- A value that a `jsonb` column gives back as it was.
abbrev pub IsKept : {A : Type 0} → Jsonb A → A → Type 0
IsKept column value =
    (written : String) × (column.stringify value ≡ ok (some written))
    × (column.stored written ≡ some value)

abbrev pub IsNamed : (merchant_id store_id : Option String) → Type 0
IsNamed merchant_id store_id = (merchant_id ≢ some "") × (store_id ≢ some "")

-- An event whose columns give back what was written, and whose identity has no empty text, as the
-- event schema asks.
pub record IsStorable {P : Type 0} (db : PostgresDatabase P) (event : DataDynaEvent) : Type 0 where
  pub occurred : Timestamp db.Date
  pub taken : db.timestamptz event.occurred_at ≡ some occurred
  pub shown : to_iso_timestamp db occurred "occurred_at" ≡ ok event.occurred_at
  pub properties_kept : IsKept db.properties_column event.properties
  pub event_kept : IsKept db.event_column event
  pub named : IsNamed event.identity.merchant_id event.identity.store_id

module _ {P : Type 0} (db : PostgresDatabase P) (event : DataDynaEvent)
    (credential : Option String) where
  pub inserted_row_storable :
      (now : Timestamp db.Date) (h : IsStorable db event)
      → inserted_row db event credential now
        ≡ ok (to_row event credential h.occurred now event.properties event)
  unfolding inserted_row
  inserted_row_storable now h =
      let (_, p, q) = h.properties_kept in let (_, x, y) = h.event_kept in ground (arith, h.taken)

  pub to_raw_event_record-to_row :
      (now : Timestamp db.Date) (received : String) (h : IsStorable db event)
      → to_iso_timestamp db now "received_at" ≡ ok received
      → to_raw_event_record db (to_row event credential h.occurred now event.properties event)
        ≡ ok (to_record event credential received)
  unfolding to_raw_event_record to_row to_record
  to_raw_event_record-to_row now received h e = rw (h.shown, e)

option_beq-coalesce :
    (a b : Option String)
    → a ≢ some ""
    → b ≢ some ""
    → option_beq a b ≡ (coalesce a "" == coalesce b "")
option_beq-coalesce none none h k = refl
option_beq-coalesce none (some b) h k = ground (arith, eq_iff "" b)
option_beq-coalesce (some a) none h k = ground (arith, eq_iff a "")
option_beq-coalesce (some a) (some b) h k = refl

environment_column-beq :
    (a b : Option Environment)
    → option_beq (environment_column a) (environment_column b)
      ≡ (environment_or_empty a == environment_or_empty b)
environment_column-beq none none = refl
environment_column-beq none (some local) = refl
environment_column-beq none (some dev) = refl
environment_column-beq none (some test) = refl
environment_column-beq none (some staging) = refl
environment_column-beq none (some prod) = refl
environment_column-beq (some local) none = refl
environment_column-beq (some dev) none = refl
environment_column-beq (some test) none = refl
environment_column-beq (some staging) none = refl
environment_column-beq (some prod) none = refl
environment_column-beq (some a) (some b) = refl

-- Where no identity has an empty text, the query finds the rows that the unique index tells apart
-- from no others.
pub has_tenant_idempotency-index :
    {D : Type 0} (event : DataDynaEvent) (row : RawEventRow D)
    → IsNamed event.identity.merchant_id event.identity.store_id
    → IsNamed row.merchant_id row.store_id
    → has_tenant_idempotency event row ≡ has_index_key (raw_event_idempotency_identity event) row
unfolding has_tenant_idempotency tenant_index_key raw_event_idempotency_identity
has_tenant_idempotency-index event row (m, s) (m', s') =
    rw
      (
        option_beq-coalesce row.merchant_id event.identity.merchant_id m' m,
        option_beq-coalesce row.store_id event.identity.store_id s' s,
        environment_column-beq row.producer_environment event.producer.environment,
      )
      (ground arith)
