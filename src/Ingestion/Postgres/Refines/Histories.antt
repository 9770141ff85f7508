-- ===== src/Ingestion/Postgres/Refines/Histories.antt =====
-- `PostgresRawEventRepository` answers as `InMemoryRawEventStore` does, in every sequence of calls.
use data_dyna.Base.{String, Option, List, [], ◌∷◌, ◌≡◌, string_eq, list_eq, ok, All}
use data_dyna.Contract.{DataDynaEvent}
use data_dyna.Ingestion.Store
use data_dyna.Ingestion.Store.{
  RawEventStore, RawEventRecord, InvalidRawEventRecord, InvalidRawEventAuditContext,
  PersistAcceptedResult, StoreError, event_id_conflict, reused, empty_store, insert_accepted,
  to_record, record_matches_tenant_idempotency, raw_event_idempotency_identity, empty_audit,
}
use data_dyna.Ingestion.Store.Consistent.{
  IsConsistent, persist_accepted-IsConsistent, empty_store-IsConsistent,
}
use data_dyna.Ingestion.Postgres.{PostgresDatabase, Timestamp, to_iso_timestamp}
use data_dyna.Ingestion.Postgres.Repository.{
  Tables, empty_tables, persist_accepted, persist_invalid,
}
use data_dyna.Ingestion.Postgres.Refines.Columns.{IsKept, IsStorable}
use data_dyna.Ingestion.Postgres.Refines.Lookups.{Represents, empty_tables-Represents}
use data_dyna.Ingestion.Postgres.Refines.Steps.{
  Agree, persist_accepted-Simulates, persist_invalid-Represents,
}

-- A call of the interface `RawEventStore`, with the time as the database returns and shows it.
pub data StoreCall {P : Type 0} (db : PostgresDatabase P) : Type 0 where
  accept :
      DataDynaEvent
      → (credential : Option String) (now : Timestamp db.Date) (received : String) → StoreCall db
  reject :
      P
      → (reason : String) (audit : Option InvalidRawEventAuditContext) (now : Timestamp db.Date)
        (received : String)
      → StoreCall db

module _ {P : Type 0} (db : PostgresDatabase P) where
  abbrev pub CanStore : StoreCall db → Type 0
  CanStore (accept event credential now received) =
      IsStorable db event × (to_iso_timestamp db now "received_at" ≡ ok received)
  CanStore (reject payload reason audit now received) =
      IsKept db.payload_column payload × (to_iso_timestamp db now "received_at" ≡ ok received)

  -- Every answer of the repository to the calls is the answer of the store.
  abbrev pub Follows : RawEventStore P → Tables db → List (StoreCall db) → Type 0
  Follows s t [] = Unit
  Follows s t (accept event credential now received ∷ rest) =
      let (s', a) = Store.persist_accepted s event credential received in
      let (t', b) = persist_accepted db t event credential now in Agree a b × Follows s' t' rest
  Follows s t (reject payload reason audit now received ∷ rest) =
      let (s', r) = Store.persist_invalid s payload reason audit received in
      let (t', answer) = persist_invalid db t payload reason audit now in
      (answer ≡ ok r) × Follows s' t' rest

  persist_invalid-IsConsistent :
      (s : RawEventStore P) (payload : P) (reason : String)
      (audit : Option InvalidRawEventAuditContext) (received : String)
      → IsConsistent s
      → IsConsistent (Store.persist_invalid s payload reason audit received).0
  unfolding Store.persist_invalid
  persist_invalid-IsConsistent s payload reason audit received c = record {
    by_identity = c.by_identity;
    by_event_id = c.by_event_id;
  }

  Represents-Follows :
      (calls : List (StoreCall db)) {s : RawEventStore P} {t : Tables db}
      → Represents db s t
      → IsConsistent s
      → All CanStore calls
      → Follows s t calls
  Represents-Follows [] h c fit = tt
  Represents-Follows (accept event credential now received ∷ rest) {s} h c ((kept, shown), fit) =
      let (h', agree) =
        persist_accepted-Simulates db h event credential now kept received c shown in
      let c' = persist_accepted-IsConsistent s event credential received c in
      (agree, Represents-Follows rest h' c' fit)
  Represents-Follows (reject payload reason audit now received ∷ rest) {s} h c
        ((kept, shown), fit) =
      let (h', same) =
        persist_invalid-Represents db h payload reason audit now received kept shown in
      let c' = persist_invalid-IsConsistent s payload reason audit received c in
      (same, Represents-Follows rest h' c' fit)

  -- From empty tables on, the Postgres repository answers every sequence of accepted and rejected
  -- events as the in-memory store does from empty: the same record and the same duplicate flag, or
  -- a rethrown violation of uniqueness where the store throws its conflict, for events, payloads
  -- and times that the columns give back as they were written and identities without empty texts.
  pub empty_tables-Follows :
      (calls : List (StoreCall db))
      → All CanStore calls
      → Follows empty_store (empty_tables db) calls
  empty_tables-Follows calls =
      Represents-Follows calls (empty_tables-Represents db) empty_store-IsConsistent
