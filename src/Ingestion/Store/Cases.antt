-- ===== src/Ingestion/Store/Cases.antt =====
-- The four ways in which `persistAccepted` of raw-event-store.ts ends.
use data_dyna.Base.{
  String, Option, none, some, List, true, false, ◌≡◌, inl, inr, lookup, thrown, ok, Bool-cases,
  Option-cases, string_eq, list_eq,
}
use data_dyna.Contract.{DataDynaEvent}
use data_dyna.Ingestion.Store.{
  RawEventStore, RawEventRecord, reused, event_id_conflict, insert_accepted, persist_accepted,
  to_record, raw_event_idempotency_identity, record_matches_tenant_idempotency,
}

module _ {P : Type 0} (s : RawEventStore P) (event : DataDynaEvent) (credential : Option String)
    (now : String) where
  abbrev id : String
  id = event.correlation.event_id

  abbrev key : List String
  key = raw_event_idempotency_identity event

  abbrev pub fresh : RawEventRecord
  fresh = to_record event credential now

  pub data Ending : Type 0 where
    same_event :
        (r : RawEventRecord)
        → lookup id s.accepted_by_event_id ≡ some r
        → record_matches_tenant_idempotency r event ≡ true
        → persist_accepted s event credential now ≡ (s, reused r)
        → Ending
    conflict :
        (r : RawEventRecord)
        → lookup id s.accepted_by_event_id ≡ some r
        → record_matches_tenant_idempotency r event ≡ false
        → persist_accepted s event credential now ≡ (s, thrown (event_id_conflict id))
        → Ending
    same_key :
        (r : RawEventRecord)
        → lookup id s.accepted_by_event_id ≡ none
        → lookup key s.accepted_by_identity ≡ some r
        → persist_accepted s event credential now ≡ (s, reused r)
        → Ending
    stored :
        lookup id s.accepted_by_event_id ≡ none
        → lookup key s.accepted_by_identity ≡ none
        → persist_accepted s event credential now
          ≡ (insert_accepted s key fresh, ok (record { row = fresh; duplicate = false }))
        → Ending

  pub endings : Ending
  unfolding persist_accepted
  endings = elim (Option-cases (lookup id s.accepted_by_event_id)) [
    | inl absent ↦ elim (Option-cases (lookup key s.accepted_by_identity)) [
      | inl unseen ↦ stored absent unseen (rw (absent, persist_accepted, unseen))
      | inr (r, seen) ↦ same_key r absent seen (rw (absent, persist_accepted, seen))
    ]
    | inr (r, present) ↦ elim (Bool-cases (record_matches_tenant_idempotency r event)) [
      | inl fits ↦ same_event r present fits (rw (present, persist_accepted, fits))
      | inr differs ↦ conflict r present differs (rw (present, persist_accepted, differs))
    ]
  ]
