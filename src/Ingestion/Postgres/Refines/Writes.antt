-- ===== src/Ingestion/Postgres/Refines/Writes.antt =====
-- What the `INSERT`s of postgres-raw-event-repository.ts do to tables that stand for a store.
use data_dyna.Base.{
  String, Option, none, some, List, [], ◌∷◌, ◌++◌, true, false, ◌≡◌, refl, ◌==◌, string_eq, list_eq,
  lookup, All-append, ok, arith, subst, lookup-insert, eq_iff, list_beq_iff,
}
use data_dyna.Base.Table.{any_of_find?-none, any_of_find?-some}
use data_dyna.Contract.{DataDynaEvent}
use data_dyna.Ingestion.Store.{
  RawEventStore, RawEventRecord, InvalidRawEventRecord, insert_accepted, to_record,
  raw_event_idempotency_identity,
}
use data_dyna.Ingestion.Postgres.{
  PostgresDatabase, RawEventRow, InvalidRawEventRow, Timestamp, to_iso_timestamp, has_event_id,
  has_index_key, tenant_index_key, to_invalid_raw_event_record,
}
use data_dyna.Ingestion.Postgres.Repository.{Tables, to_row, violates_unique}
use data_dyna.Ingestion.Postgres.Refines.Columns.{IsStorable, to_raw_event_record-to_row}
use data_dyna.Ingestion.Postgres.Refines.Lookups.{
  Represents, ShowsInvalid, Shows-none, Shows-some, Shows-append,
}

module _ {P : Type 0} (db : PostgresDatabase P) {s : RawEventStore P} {t : Tables db}
    (h : Represents db s t) where
  module _ (event : DataDynaEvent) (credential : Option String) (now : Timestamp db.Date)
      (stored : IsStorable db event) where
    abbrev id : String
    id = event.correlation.event_id

    abbrev key : List String
    key = raw_event_idempotency_identity event

    abbrev pub new_row : RawEventRow db.Date
    new_row = to_row event credential stored.occurred now event.properties event

    -- The keys that the `INSERT` may violate are those that the store looks up.
    pub violates_id :
        {r : RawEventRecord}
        → lookup id s.accepted_by_event_id ≡ some r
        → violates_unique db t.raw_events new_row ≡ true
    unfolding violates_unique to_row
    violates_id e =
        let (row, seen, _) = Shows-some db _ e (h.by_event_id id) in
        ground (arith, any_of_find?-some (has_event_id id) t.raw_events row seen)

    pub violates_key :
        {r : RawEventRecord}
        → lookup key s.accepted_by_identity ≡ some r
        → violates_unique db t.raw_events new_row ≡ true
    unfolding violates_unique to_row tenant_index_key raw_event_idempotency_identity
    violates_key e =
        let (row, seen, _) = Shows-some db _ e (h.by_identity key) in
        ground (arith, any_of_find?-some (has_index_key key) t.raw_events row seen)

    module _ (new_id : lookup id s.accepted_by_event_id ≡ none)
        (new_key : lookup key s.accepted_by_identity ≡ none) where
      pub violates_none : violates_unique db t.raw_events new_row ≡ false
      unfolding violates_unique to_row tenant_index_key raw_event_idempotency_identity
      violates_none =
          let no_id = Shows-none db _ new_id (h.by_event_id id) in
          let no_key = Shows-none db _ new_key (h.by_identity key) in
          ground (
            arith,
            any_of_find?-none (has_event_id id) t.raw_events no_id,
            any_of_find?-none (has_index_key key) t.raw_events no_key,
          )

      pub insert_accepted-Represents :
          (received : String)
          → to_iso_timestamp db now "received_at" ≡ ok received
          → Represents db
              (insert_accepted s key (to_record event credential received))
              (record t { raw_events = t.raw_events ++ new_row ∷ [] })
      unfolding insert_accepted to_row tenant_index_key raw_event_idempotency_identity to_record
      insert_accepted-Represents received e =
          let reads = to_raw_event_record-to_row db event credential now received stored e in
          record {
            by_event_id = λ i. rw lookup-insert (
                Shows-append db (has_event_id i) t.raw_events new_row _ (id == i) _ reads refl
                  (λ hit.
                    subst (λ j. lookup j s.accepted_by_event_id ≡ none) ((eq_iff id i).0 hit)
                      new_id)
                  (h.by_event_id i));
            by_identity = λ k. rw lookup-insert (
                Shows-append db (has_index_key k) t.raw_events new_row _ (key == k) _ reads refl
                  (λ hit.
                    subst (λ j. lookup j s.accepted_by_identity ≡ none) ((list_beq_iff key k).0 hit)
                      new_key)
                  (h.by_identity k));
            named = All-append _ t.raw_events (new_row ∷ []) h.named (stored.named, tt);
            invalid = h.invalid;
          }

  ShowsInvalid-append :
      (rs : List (InvalidRawEventRecord P)) (rows : List (InvalidRawEventRow P db.Date))
      (r : InvalidRawEventRecord P) (row : InvalidRawEventRow P db.Date)
      → ShowsInvalid db rs rows
      → to_invalid_raw_event_record db row ≡ ok r
      → ShowsInvalid db (rs ++ r ∷ []) (rows ++ row ∷ [])
  ShowsInvalid-append [] [] r row m e = (e, tt)
  ShowsInvalid-append [] (q ∷ rows) r row m e = absurd m
  ShowsInvalid-append (p ∷ rs) [] r row m e = absurd m
  ShowsInvalid-append (p ∷ rs) (q ∷ rows) r row m e = (m.0, ShowsInvalid-append rs rows r row m.1 e)

  pub insert_invalid-Represents :
      (r : InvalidRawEventRecord P) (row : InvalidRawEventRow P db.Date)
      → to_invalid_raw_event_record db row ≡ ok r
      → Represents db
          (record s { invalid_events = s.invalid_events ++ r ∷ [] })
          (record t { invalid_raw_events = t.invalid_raw_events ++ row ∷ [] })
  insert_invalid-Represents r row e = record {
    by_event_id = h.by_event_id;
    by_identity = h.by_identity;
    named = h.named;
    invalid = ShowsInvalid-append s.invalid_events t.invalid_raw_events r row h.invalid e;
  }
