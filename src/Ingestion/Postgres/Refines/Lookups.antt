-- ===== src/Ingestion/Postgres/Refines/Lookups.antt =====
-- When the tables of postgres-raw-event-repository.ts stand for the store of raw-event-store.ts,
-- and what the queries of the former then find.
use data_dyna.Base.{
  String, Option, none, some, List, [], ◌∷◌, ◌++◌, Bool, true, false, ◌≡◌, ◌∙◌, refl, ap, string_eq,
  list_eq, lookup, find?, All, ok, if◌then◌else◌,
}
use data_dyna.Base.Table.{All-mono, find?-cong, find?-append_one}
use data_dyna.Contract.{DataDynaEvent}
use data_dyna.Ingestion.Store.{
  RawEventStore, RawEventRecord, InvalidRawEventRecord, empty_store, raw_event_idempotency_identity,
}
use data_dyna.Ingestion.Postgres.{
  PostgresDatabase, RawEventRow, InvalidRawEventRow, to_raw_event_record,
  to_invalid_raw_event_record, has_event_id, has_index_key,
}
use data_dyna.Ingestion.Postgres.Repository.{
  Tables, empty_tables, found_record, find_by_event_id, find_by_tenant_idempotency,
}
use data_dyna.Ingestion.Postgres.Refines.Columns.{IsNamed, has_tenant_idempotency-index}

module _ {P : Type 0} (db : PostgresDatabase P) where
  -- What a lookup in the store gives and what a query on the table gives are the same record.
  abbrev pub Shows : Option RawEventRecord → Option (RawEventRow db.Date) → Type 0
  Shows none none = Unit
  Shows none (some row) = ⊥
  Shows (some r) none = ⊥
  Shows (some r) (some row) = to_raw_event_record db row ≡ ok r

  abbrev pub ShowsInvalid :
      List (InvalidRawEventRecord P) → List (InvalidRawEventRow P db.Date) → Type 0
  ShowsInvalid [] [] = Unit
  ShowsInvalid [] (row ∷ rows) = ⊥
  ShowsInvalid (r ∷ rs) [] = ⊥
  ShowsInvalid (r ∷ rs) (row ∷ rows) =
      (to_invalid_raw_event_record db row ≡ ok r) × ShowsInvalid rs rows

  pub record Represents (s : RawEventStore P) (t : Tables db) : Type 0 where
    pub by_event_id :
        (i : String) → Shows (lookup i s.accepted_by_event_id) (find? (has_event_id i) t.raw_events)
    pub by_identity :
        (k : List String)
        → Shows (lookup k s.accepted_by_identity) (find? (has_index_key k) t.raw_events)
    pub named : All (λ row. IsNamed row.merchant_id row.store_id) t.raw_events
    pub invalid : ShowsInvalid s.invalid_events t.invalid_raw_events

  -- The empty tables stand for the empty store.
  pub empty_tables-Represents : Represents empty_store (empty_tables db)
  unfolding empty_store empty_tables lookup
  empty_tables-Represents = record {
    by_event_id = λ i. tt;
    by_identity = λ k. tt;
    named = tt;
    invalid = tt;
  }

  pub Shows-none :
      (o : Option (RawEventRow db.Date)) {m : Option RawEventRecord}
      → m ≡ none
      → Shows m o
      → o ≡ none
  Shows-none none e h = refl
  Shows-none (some row) e h = absurd (rw e at h)

  pub Shows-some :
      (o : Option (RawEventRow db.Date)) {m : Option RawEventRecord} {r : RawEventRecord}
      → m ≡ some r
      → Shows m o
      → (row : RawEventRow db.Date) × (o ≡ some row) × (to_raw_event_record db row ≡ ok r)
  Shows-some none e h = absurd (rw e at h)
  Shows-some (some row) e h = (row, refl, rw e at h)

  pub found_record-Shows :
      (o : Option (RawEventRow db.Date)) (m : Option RawEventRecord)
      → Shows m o
      → found_record db o ≡ ok m
  unfolding found_record
  found_record-Shows none none h = refl
  found_record-Shows none (some r) h = absurd h
  found_record-Shows (some row) none h = absurd h
  found_record-Shows (some row) (some r) h = rw h

  pub Shows-append :
      (p : RawEventRow db.Date → Bool) (rows : List (RawEventRow db.Date))
      (row : RawEventRow db.Date) (r : RawEventRecord) (b : Bool) (m : Option RawEventRecord)
      → to_raw_event_record db row ≡ ok r
      → p row ≡ b
      → (b ≡ true → m ≡ none)
      → Shows m (find? p rows)
      → Shows (if b then some r else m) (find? p (rows ++ row ∷ []))
  Shows-append p rows row r true m reads hit new h =
      let unseen = Shows-none (find? p rows) (new refl) h in
      rw (find?-append_one p rows row, unseen, hit) reads
  Shows-append p rows row r false none reads miss new h =
      let unseen = Shows-none (find? p rows) refl h in
      rw (find?-append_one p rows row, unseen, miss) tt
  Shows-append p rows row r false (some q) reads miss new h =
      let (found, seen, shown) = Shows-some (find? p rows) refl h in
      rw (find?-append_one p rows row, seen) shown

  module _ {s : RawEventStore P} {t : Tables db} (h : Represents s t) where
    pub find_by_event_id-Represents :
        (i : String) → find_by_event_id db t i ≡ ok (lookup i s.accepted_by_event_id)
    unfolding find_by_event_id
    find_by_event_id-Represents i = found_record-Shows _ _ (h.by_event_id i)

    pub find_by_tenant_idempotency-Represents :
        (event : DataDynaEvent)
        → IsNamed event.identity.merchant_id event.identity.store_id
        → find_by_tenant_idempotency db t event
          ≡ ok (lookup (raw_event_idempotency_identity event) s.accepted_by_identity)
    unfolding find_by_tenant_idempotency
    find_by_tenant_idempotency-Represents event n =
        let key = raw_event_idempotency_identity event in
        let same =
          All-mono t.raw_events (λ row. has_tenant_idempotency-index event row n) h.named in
        ap (found_record db) (find?-cong _ (has_index_key key) t.raw_events same)
        ∙ found_record-Shows _ _ (h.by_identity key)
