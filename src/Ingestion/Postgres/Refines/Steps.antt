-- ===== src/Ingestion/Postgres/Refines/Steps.antt =====
-- One call of `PostgresRawEventRepository` answers as that of `InMemoryRawEventStore` does.
use data_dyna.Base.{
  String, Option, none, some, List, [], ◌∷◌, ◌++◌, true, false, ◌≡◌, ◌∙◌, refl, sym, ap, string_eq,
  list_eq, lookup, ok, thrown, Outcome, arith, subst,
}
use data_dyna.Contract.{DataDynaEvent}
use data_dyna.Ingestion.Store
use data_dyna.Ingestion.Store.{
  RawEventStore, RawEventRecord, InvalidRawEventRecord, InvalidRawEventAuditContext,
  PersistAcceptedResult, StoreError, event_id_conflict, reused, empty_store, insert_accepted,
  to_record, record_matches_tenant_idempotency, raw_event_idempotency_identity, empty_audit,
}
use data_dyna.Ingestion.Store.Identity.{record_matches-identity}
use data_dyna.Ingestion.Store.Cases.{endings, same_event, conflict, same_key, stored}
use data_dyna.Ingestion.Store.Consistent.{IsConsistent}
use data_dyna.Ingestion.Postgres.{
  PostgresDatabase, Timestamp, PostgresError, unique_violation, to_iso_timestamp, record_matches,
  to_invalid_raw_event_record, to_raw_event_record,
}
use data_dyna.Ingestion.Postgres.Repository.{
  Tables, to_row, stored_payload, to_invalid_row, insert_invalid, returned_invalid,
  insert_raw_event, first_record, rethrow_unless_same, recover, after_insert, persist_accepted,
  persist_invalid, violates_unique,
}
use data_dyna.Ingestion.Postgres.Refines.Columns.{
  IsKept, IsStorable, inserted_row_storable, to_raw_event_record-to_row,
}
use data_dyna.Ingestion.Postgres.Refines.Lookups.{
  Represents, find_by_event_id-Represents, find_by_tenant_idempotency-Represents,
}
use data_dyna.Ingestion.Postgres.Refines.Writes.{
  new_row, violates_id, violates_key, violates_none, insert_accepted-Represents,
  insert_invalid-Represents,
}

-- The same result, or the conflict of the store where the repository rethrows the violation.
abbrev pub Agree :
    Outcome StoreError PersistAcceptedResult → Outcome PostgresError PersistAcceptedResult → Type 0
Agree (ok a) (ok b) = a ≡ b
Agree (ok a) (thrown y) = ⊥
Agree (thrown x) (ok b) = ⊥
Agree (thrown x) (thrown y) = y ≡ unique_violation

module _ {P : Type 0} (db : PostgresDatabase P) where
  abbrev pub Simulates :
      RawEventStore P × Outcome StoreError PersistAcceptedResult
      → Tables db × Outcome PostgresError PersistAcceptedResult
      → Type 0
  Simulates (s, a) (t, b) = Represents db s t × Agree a b

  module _ {s : RawEventStore P} {t : Tables db} (h : Represents db s t) (event : DataDynaEvent)
      (credential : Option String) (now : Timestamp db.Date) (kept : IsStorable db event) where
    abbrev id : String
    id = event.correlation.event_id

    abbrev key : List String
    key = raw_event_idempotency_identity event

    recover-same :
        {r : RawEventRecord}
        → lookup id s.accepted_by_event_id ≡ some r
        → record_matches_tenant_idempotency r event ≡ true
        → lookup key s.accepted_by_identity ≡ some r
        → recover db t event unique_violation ≡ ok (record { row = r; duplicate = true })
    unfolding recover rethrow_unless_same record_matches record_matches_tenant_idempotency
    recover-same present fits filed = rw (
      find_by_event_id-Represents db h id,
      present,
      fits,
      find_by_tenant_idempotency-Represents db h event kept.named,
      filed,
    )

    recover-conflict :
        {r : RawEventRecord}
        → lookup id s.accepted_by_event_id ≡ some r
        → record_matches_tenant_idempotency r event ≡ false
        → recover db t event unique_violation ≡ thrown unique_violation
    unfolding recover rethrow_unless_same record_matches record_matches_tenant_idempotency
    recover-conflict present differs = rw (find_by_event_id-Represents db h id, present, differs)

    recover-key :
        {r : RawEventRecord}
        → lookup id s.accepted_by_event_id ≡ none
        → lookup key s.accepted_by_identity ≡ some r
        → recover db t event unique_violation ≡ ok (record { row = r; duplicate = true })
    unfolding recover rethrow_unless_same
    recover-key absent filed = rw (
      find_by_event_id-Represents db h id,
      absent,
      find_by_tenant_idempotency-Represents db h event kept.named,
      filed,
    )

    persist_violating :
        violates_unique db t.raw_events (new_row db h event credential now kept) ≡ true
        → persist_accepted db t event credential now ≡ (t, recover db t event unique_violation)
    unfolding persist_accepted insert_raw_event after_insert
    persist_violating v =
        ap (λ row. after_insert db event (insert_raw_event db t row))
          (inserted_row_storable db event credential now kept)
        ∙ rw v

    persist_stored :
        (received : String)
        → to_iso_timestamp db now "received_at" ≡ ok received
        → violates_unique db t.raw_events (new_row db h event credential now kept) ≡ false
        → persist_accepted db t event credential now ≡ (
          record t { raw_events = t.raw_events ++ new_row db h event credential now kept ∷ [] },
          ok (record { row = to_record event credential received; duplicate = false }),
        )
    unfolding persist_accepted insert_raw_event after_insert first_record to_raw_event_record to_row
        to_record to_iso_timestamp
    persist_stored received e v =
        ap (λ row. after_insert db event (insert_raw_event db t row))
          (inserted_row_storable db event credential now kept)
        ∙ rw (v, to_raw_event_record-to_row db event credential now received kept e)

    -- Tables that stand for a consistent store still do after the same accepted event has been
    -- persisted in both, for a storable event and a time that is shown as the store's; both give
    -- the same record and the same duplicate flag, or the store throws its conflict and the
    -- repository rethrows the violation of uniqueness.
    pub persist_accepted-Simulates :
        (received : String)
        → IsConsistent s
        → to_iso_timestamp db now "received_at" ≡ ok received
        → Simulates
            (Store.persist_accepted s event credential received)
            (persist_accepted db t event credential now)
    persist_accepted-Simulates received c e = elim (endings s event credential received) [
      | same_event r present fits a ↦
          let same = (record_matches-identity r event).0 fits in
          let filed =
            subst (λ k. lookup k s.accepted_by_identity ≡ some r) same
              (c.by_event_id id r present).1 in
          rw
            (
              a,
              persist_violating (violates_id db h event credential now kept present),
              recover-same present fits filed,
            )
            (h, refl)
      | conflict r present differs a ↦
          rw
            (
              a,
              persist_violating (violates_id db h event credential now kept present),
              recover-conflict present differs,
            )
            (h, refl)
      | same_key r absent filed a ↦
          rw
            (
              a,
              persist_violating (violates_key db h event credential now kept filed),
              recover-key absent filed,
            )
            (h, refl)
      | stored absent unseen a ↦
          rw
            (
              a,
              persist_stored received e
                  (violates_none db h event credential now kept absent unseen),
            )
            (
              insert_accepted-Represents db h event credential now kept absent unseen received e,
              refl,
            )
    ]

  stored_payload-kept :
      (payload : P) → IsKept db.payload_column payload → stored_payload db payload ≡ ok payload
  unfolding stored_payload
  stored_payload-kept payload (written, e, k) = ground arith

  -- For a payload that the database takes, the rejected event is appended to both audits as the
  -- same record, which both give.
  pub persist_invalid-Represents :
      {s : RawEventStore P} {t : Tables db} (h : Represents db s t) (payload : P) (reason : String)
      (audit : Option InvalidRawEventAuditContext) (now : Timestamp db.Date) (received : String)
      → IsKept db.payload_column payload
      → to_iso_timestamp db now "received_at" ≡ ok received
      → let (s', r) = Store.persist_invalid s payload reason audit received in
        let (t', answer) = persist_invalid db t payload reason audit now in
        Represents db s' t' × (answer ≡ ok r)
  unfolding Store.persist_invalid persist_invalid insert_invalid to_invalid_row returned_invalid
      to_invalid_raw_event_record
  persist_invalid-Represents {s} {t} h payload reason audit now received kept shown = (
    subst
        (λ stored.
          Represents db (Store.persist_invalid s payload reason audit received).0
            (insert_invalid db t reason audit now stored).0)
        (sym (stored_payload-kept payload kept))
        (insert_invalid-Represents db h _ (to_invalid_row db payload reason audit now) (rw shown)),
    rw (stored_payload-kept payload kept, shown),
  )
