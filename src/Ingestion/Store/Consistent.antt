-- ===== src/Ingestion/Store/Consistent.antt =====
-- The two maps of `InMemoryRawEventStore` in raw-event-store.ts hold the same records.
use data_dyna.Base.{
  Indexed, Indexed-insert, String, Option, none, ◌≡◌, refl, lookup, string_eq, list_eq,
}
use data_dyna.Contract.{DataDynaEvent}
use data_dyna.Ingestion.Store.{
  RawEventStore, empty_store, persist_accepted, insert_accepted, to_record,
  raw_event_idempotency_identity,
}
use data_dyna.Ingestion.Store.Identity.{record_identity}
use data_dyna.Ingestion.Store.Cases.{endings, same_event, conflict, same_key, stored}

-- Each map finds under its own key what the other finds under the other key.
pub record IsConsistent {P : Type 0} (s : RawEventStore P) : Type 0 where
  pub by_identity :
      Indexed record_identity (λ r. r.event_id) s.accepted_by_identity s.accepted_by_event_id
  pub by_event_id :
      Indexed (λ r. r.event_id) record_identity s.accepted_by_event_id s.accepted_by_identity

pub to_record-identity :
    (event : DataDynaEvent) (c : Option String) (now : String)
    → record_identity (to_record event c now) ≡ raw_event_idempotency_identity event
unfolding to_record raw_event_idempotency_identity
to_record-identity event c now = refl

-- The empty store is consistent.
pub empty_store-IsConsistent : {P : Type 0} → IsConsistent (empty_store {P = P})
unfolding empty_store lookup
empty_store-IsConsistent = record { by_identity = λ k r h. cc; by_event_id = λ i r h. cc }

insert_accepted-IsConsistent :
    {P : Type 0} (s : RawEventStore P) (event : DataDynaEvent) (c : Option String) (now : String)
    → lookup event.correlation.event_id s.accepted_by_event_id ≡ none
    → lookup (raw_event_idempotency_identity event) s.accepted_by_identity ≡ none
    → IsConsistent s
    → IsConsistent
        (insert_accepted s (raw_event_idempotency_identity event) (to_record event c now))
unfolding insert_accepted to_record raw_event_idempotency_identity
insert_accepted-IsConsistent s event c now new_id new_key v = record {
  by_identity =
      Indexed-insert record_identity (λ r. r.event_id) s.accepted_by_identity s.accepted_by_event_id
        _ (to_record event c now) refl new_id v.by_identity;
  by_event_id =
      Indexed-insert (λ r. r.event_id) record_identity s.accepted_by_event_id s.accepted_by_identity
        _ (to_record event c now) refl new_key v.by_event_id;
}

-- Persisting an accepted event keeps the two maps of the store in agreement, whatever it returns
-- or throws.
pub persist_accepted-IsConsistent :
    {P : Type 0} (s : RawEventStore P) (event : DataDynaEvent) (credential : Option String)
    (now : String)
    → IsConsistent s
    → IsConsistent (persist_accepted s event credential now).0
persist_accepted-IsConsistent s event credential now c = elim (endings s event credential now) [
  | same_event r _ _ e ↦ rw e c
  | conflict r _ _ e ↦ rw e c
  | same_key r _ _ e ↦ rw e c
  | stored new_id new_key e ↦
      rw e (insert_accepted-IsConsistent s event credential now new_id new_key c)
]
