-- ===== src/Ingestion/Store/Redelivery.antt =====
-- What `persistAccepted` of raw-event-store.ts does with an event that it has seen.
use data_dyna.Base.{
  String, subst, Option, none, some, List, ◌≡◌, ◌≢◌, sym, ap, ◌∙◌, lookup, thrown, ok, string_eq,
  list_eq, arith, lookup-insert_self, lookup-insert, ◌⊎◌, length, length-insert_new, ◌+◌,
  if◌then◌else◌, list_beq_iff,
}
use data_dyna.Contract.{DataDynaEvent}
use data_dyna.Ingestion.Store.{
  RawEventStore, RawEventRecord, PersistAcceptedResult, StoreError, event_id_conflict, reused,
  persist_accepted, insert_accepted, to_record, raw_event_idempotency_identity,
}
use data_dyna.Ingestion.Store.Identity.{record_identity, record_matches-identity}
use data_dyna.Ingestion.Store.Cases.{endings, same_event, conflict, same_key, stored}
use data_dyna.Ingestion.Store.Consistent.{IsConsistent, to_record-identity}

module _ {P : Type 0} where
  -- In a consistent store, a returned result is filed under both keys of its record, and the
  -- record has the event's identity.
  pub persist_accepted_filed :
      (s : RawEventStore P) (event : DataDynaEvent) (credential : Option String) (now : String)
      (a : PersistAcceptedResult)
      → IsConsistent s
      → (persist_accepted s event credential now).1 ≡ ok a
      → let t = (persist_accepted s event credential now).0 in
        (record_identity a.row ≡ raw_event_idempotency_identity event)
        × (lookup (raw_event_idempotency_identity event) t.accepted_by_identity ≡ some a.row)
        × (lookup a.row.event_id t.accepted_by_event_id ≡ some a.row)
  unfolding insert_accepted
  persist_accepted_filed s event credential now a c h = elim (endings s event credential now) [
    | same_event r present fits e ↦
        let same = (record_matches-identity r event).0 fits in
        let here : r ≡ a.row = cc (ap (λ p. p.1) e) in
        let (own, filed) = c.by_event_id _ r present in
        let by_id : lookup r.event_id s.accepted_by_event_id ≡ some r =
          subst (λ i. lookup i s.accepted_by_event_id ≡ some r) (sym own) present in
        rw (e, ← here) (same, rw (← same) filed, by_id)
    | conflict r present differs e ↦ absurd (cc (ap (λ p. p.1) e))
    | same_key r absent seen e ↦
        let here : r ≡ a.row = cc (ap (λ p. p.1) e) in
        let (own, filed) = c.by_identity _ r seen in rw (e, ← here) (own, seen, filed)
    | stored new_id new_key e ↦
        let here : to_record event credential now ≡ a.row = cc (ap (λ p. p.1) e) in
        rw (e, ← here)
          (
            to_record-identity event credential now,
            lookup-insert_self (raw_event_idempotency_identity event) _ s.accepted_by_identity,
            lookup-insert_self _ (to_record event credential now) s.accepted_by_event_id,
          )
  ]

  -- Once an event has been persisted in a consistent store, an event with the same idempotency
  -- identity whose event id is new or that of the record is answered by the filed record, as a
  -- duplicate, and the store stays as it is.
  pub persist_accepted_again :
      (s : RawEventStore P) (event later : DataDynaEvent) (credential c' : Option String)
      (now now' : String) (a : PersistAcceptedResult)
      → IsConsistent s
      → (persist_accepted s event credential now).1 ≡ ok a
      → raw_event_idempotency_identity later ≡ raw_event_idempotency_identity event
      → let t = (persist_accepted s event credential now).0 in
        (lookup later.correlation.event_id t.accepted_by_event_id ≡ none)
          ⊎ (later.correlation.event_id ≡ a.row.event_id)
        → persist_accepted t later c' now' ≡ (t, reused a.row)
  persist_accepted_again s event later credential c' now now' a c h same known =
      let t = (persist_accepted s event credential now).0 in
      let (own, by_key, by_id) = persist_accepted_filed s event credential now a c h in
      elim (endings t later c' now') [
        | same_event r present fits e ↦ let here : r ≡ a.row = ground arith in rw (e, here)
        | conflict r present differs e ↦
            let here : r ≡ a.row = ground arith in
            absurd (cc ((record_matches-identity r later).1 (rw here (own ∙ sym same))))
        | same_key r absent seen e ↦ let here : r ≡ a.row = cc in rw (e, here)
        | stored new_id new_key e ↦ absurd (cc)
      ]

  -- What is filed under an identity stays filed, whatever is persisted and however that ends.
  pub persist_accepted_keeps :
      (s : RawEventStore P) (event : DataDynaEvent) (credential : Option String) (now : String)
      (k : List String) (r : RawEventRecord)
      → lookup k s.accepted_by_identity ≡ some r
      → lookup k (persist_accepted s event credential now).0.accepted_by_identity ≡ some r
  unfolding insert_accepted
  persist_accepted_keeps s event credential now k r h = elim (endings s event credential now) [
    | same_event _ _ _ e ↦ rw e h
    | conflict _ _ _ e ↦ rw e h
    | same_key _ _ _ e ↦ rw e h
    | stored _ new_key e ↦
        let key = raw_event_idempotency_identity event in
        rw e (
          ground (
            arith,
            lookup-insert key k (to_record event credential now) s.accepted_by_identity,
            list_beq_iff key k,
          ))
  ]

  -- When persisting returns, the store is longer by one record exactly when the result says that
  -- it is no duplicate, and as long as before otherwise.
  pub persist_accepted_growth :
      (s : RawEventStore P) (event : DataDynaEvent) (credential : Option String) (now : String)
      (a : PersistAcceptedResult)
      → (persist_accepted s event credential now).1 ≡ ok a
      → length (persist_accepted s event credential now).0.accepted_by_identity
        ≡ length s.accepted_by_identity + (if a.duplicate then 0 else 1)
  unfolding insert_accepted
  persist_accepted_growth s event credential now a h = elim (endings s event credential now) [
    | same_event r _ _ e ↦ rw e (ground (arith, ap (λ p. p.1) e))
    | conflict r _ _ e ↦ absurd (cc (ap (λ p. p.1) e))
    | same_key r _ _ e ↦ rw e (ground (arith, ap (λ p. p.1) e))
    | stored _ new_key e ↦ rw e (
        ground (
          arith,
          ap (λ p. p.1) e,
          length-insert_new _ (to_record event credential now) s.accepted_by_identity new_key,
        ))
  ]

  -- Persisting throws exactly if the event id is filed with another idempotency identity, and then
  -- it throws that conflict and leaves the store as it was.
  pub persist_accepted_conflict :
      (s : RawEventStore P) (event : DataDynaEvent) (credential : Option String) (now : String)
      → let Taken =
          (r : RawEventRecord) × (lookup event.correlation.event_id s.accepted_by_event_id ≡ some r)
          × (record_identity r ≢ raw_event_idempotency_identity event) in
        ((x : StoreError) → (persist_accepted s event credential now).1 ≡ thrown x → Taken)
        × (Taken
            → persist_accepted s event credential now
              ≡ (s, thrown (event_id_conflict event.correlation.event_id)))
  persist_accepted_conflict s event credential now = elim (endings s event credential now) [
    | same_event r present fits e ↦ (
      λ x t. absurd (cc (ap (λ p. p.1) e)),
      λ (q, filed, other).
          let here : r ≡ q = cc in
          absurd (other (rw (← here) ((record_matches-identity r event).0 fits))),
    )
    | conflict r present differs e ↦
        (λ x t. (r, present, λ same. cc ((record_matches-identity r event).1 same)), λ w. e)
    | same_key r absent seen e ↦ (λ x t. absurd (cc (ap (λ p. p.1) e)), λ (q, filed, other). cc)
    | stored new_id new_key e ↦ (λ x t. absurd (cc (ap (λ p. p.1) e)), λ (q, filed, other). cc)
  ]
