-- ===== src/Ingestion/Handlers/Audit.antt =====
-- What each answer of event-handlers.ts leaves in the store and in the sink.
use data_dyna.Base.{
  String, Option, none, some, [], ◌∷◌, ◌++◌, ◌≡◌, refl, Outcome, ok, thrown, Option-cases, inl, inr,
  if◌then◌else◌,
}
use data_dyna.Contract.{DataDynaEvent}
use data_dyna.Ingestion.Store.{
  InvalidRawEventRecord, StoreError, persist_invalid, insert_accepted, to_record,
}
use data_dyna.Ingestion.Store.Cases.{endings, same_event, conflict, same_key, stored}
use data_dyna.Ingestion.Handlers.{
  Payloads, ParseResult, success, failure, AuthenticatedIngestionContext, Ingestion,
  EventIngestionResult, accepted_event, invalid_event, tenant_failure, validate_tenant_policy,
  accept_event, handle_parsed, handle_post_event, reject_invalid_event, reject_tenant_policy,
  enqueue_product_analytics, enqueue_to,
}

-- The accepted events and the sink are as before, and the record is appended to the audit.
abbrev pub Audited : {P : Type 0} → Ingestion P → Ingestion P → InvalidRawEventRecord P → Type 0
Audited s t entry =
    (t.store.accepted_by_identity ≡ s.store.accepted_by_identity)
    × (t.store.accepted_by_event_id ≡ s.store.accepted_by_event_id)
    × (t.store.invalid_events ≡ s.store.invalid_events ++ entry ∷ [])
    × (t.sink ≡ s.sink)

abbrev pub Leaves :
    {P : Type 0} → Ingestion P → Ingestion P × Outcome StoreError (EventIngestionResult P) → Type 0
Leaves s (t, thrown x) = t ≡ s
Leaves s (t, ok (accepted_event d r)) =
    (t.store.invalid_events ≡ s.store.invalid_events)
    × (t.sink ≡ (if d then s.sink else enqueue_to r.event s.sink))
Leaves s (t, ok (invalid_event entry)) = Audited s t entry
Leaves s (t, ok (tenant_failure policy entry)) = Audited s t entry

module _ (payloads : Payloads) where
  open payloads use {Payload, safe_parse}

  accept_event-Leaves :
      (s : Ingestion Payload) (event : DataDynaEvent) (credential : Option String) (now : String)
      → Leaves s (accept_event payloads s event credential now)
  unfolding accept_event insert_accepted to_record enqueue_product_analytics
  accept_event-Leaves s event credential now = elim (endings s.store event credential now) [
    | same_event r _ _ e ↦ rw (e, accept_event) (refl, refl)
    | conflict r _ _ e ↦ rw (e, accept_event) refl
    | same_key r _ _ e ↦ rw (e, accept_event) (refl, refl)
    | stored _ _ e ↦ rw (e, accept_event) (refl, refl)
  ]

  handle_parsed-Leaves :
      (s : Ingestion Payload) (payload : Payload) (parsed : ParseResult)
      (context : Option AuthenticatedIngestionContext) (now : String)
      → Leaves s (handle_parsed payloads s payload parsed context now)
  unfolding handle_parsed reject_tenant_policy reject_invalid_event persist_invalid
  handle_parsed-Leaves s payload (failure issues) context now = (refl, refl, refl, refl)
  handle_parsed-Leaves s payload (success event) none now = accept_event-Leaves s event none now
  handle_parsed-Leaves s payload (success event) (some context) now =
      elim (Option-cases (validate_tenant_policy event context)) [
        | inl pass ↦ rw (pass, handle_parsed) (accept_event-Leaves s event _ now)
        | inr (policy, refused) ↦ rw (refused, handle_parsed) (refl, refl, refl, refl)
      ]

  -- On every branch of the handler: an accepted event leaves the audit alone and is copied to the
  -- sink unless it is a duplicate; a rejected event leaves the accepted events and the sink alone
  -- and its record is appended to the audit; a thrown conflict leaves everything alone.
  pub handle_post_event-Leaves :
      (s : Ingestion Payload) (payload : Payload) (context : Option AuthenticatedIngestionContext)
      (now : String)
      → Leaves s (handle_post_event payloads s payload context now)
  unfolding handle_post_event
  handle_post_event-Leaves s payload context now =
      handle_parsed-Leaves s payload (safe_parse payload) context now
