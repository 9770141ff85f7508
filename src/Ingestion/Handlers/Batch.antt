-- ===== src/Ingestion/Handlers/Batch.antt =====
-- Batches of events in event-handlers.ts.
use data_dyna.Base.{
  append_nil, append_assoc, subst, sym, refl, true, ◌↔◌, Outcome, thrown, ℕ, suc, String, Option,
  none, some, List, [], ◌∷◌, ◌++◌, Bool, ◌≡◌, ap, ◌∙◌, Outcome-cases, ok, arith, inl, inr, length,
  lookup, Option-cases, list_eq, string_eq,
}
use data_dyna.Contract.{DataDynaEvent}
use data_dyna.Ingestion.Handlers.Audit.{Leaves, handle_post_event-Leaves}
use data_dyna.Ingestion.Store.{
  InvalidRawEventRecord, StoreError, RawEventRecord, RawEventStore, persist_accepted,
  persist_invalid,
}
use data_dyna.Ingestion.Store.Consistent.{IsConsistent, persist_accepted-IsConsistent}
use data_dyna.Ingestion.Store.Redelivery.{persist_accepted_keeps}
use data_dyna.Ingestion.Handlers.{
  Payloads, ParseResult, success, failure, AuthenticatedIngestionContext, Ingestion,
  EventIngestionResult, BatchIngestionResult, validate_tenant_policy, accept_event, handle_parsed,
  handle_post_event, handle_each, handle_post_events_batch, reject_invalid_event,
  reject_tenant_policy, enqueue_product_analytics, batch, all_results_ok, accepted_event,
  invalid_event, tenant_failure,
}

module _ (payloads : Payloads) where
  open payloads use {Payload, safe_parse, as_array}

  -- A property of the store that persisting keeps, and that the audit does not touch.
  module _ {ℓ} (Q : RawEventStore Payload → Type ℓ)
      (persists : (s : RawEventStore Payload) (event : DataDynaEvent) (c : Option String)
          (now : String)
        → Q s
        → Q (persist_accepted s event c now).0)
      (audits : (s : RawEventStore Payload) (entries : List _)
        → Q s
        → Q (record s { invalid_events = entries })) where
    accept_event-keeps :
        (s : Ingestion Payload) (event : DataDynaEvent) (c : Option String) (now : String)
        → Q s.store
        → Q (accept_event payloads s event c now).0.store
    unfolding accept_event enqueue_product_analytics
    accept_event-keeps s event c now q =
        elim (Outcome-cases (persist_accepted s.store event c now).1) [
          | inl (a, e) ↦ rw (e, accept_event) (ground (arith, persists s.store event c now q))
          | inr (x, e) ↦ rw (e, accept_event) (persists s.store event c now q)
        ]

    handle_parsed-keeps :
        (s : Ingestion Payload) (payload : Payload) (parsed : ParseResult)
        (context : Option AuthenticatedIngestionContext) (now : String)
        → Q s.store
        → Q (handle_parsed payloads s payload parsed context now).0.store
    unfolding handle_parsed reject_tenant_policy reject_invalid_event persist_invalid
    handle_parsed-keeps s payload (failure issues) context now q = audits s.store _ q
    handle_parsed-keeps s payload (success event) none now q = accept_event-keeps s event none now q
    handle_parsed-keeps s payload (success event) (some context) now q =
        elim (Option-cases (validate_tenant_policy event context)) [
          | inl pass ↦ rw (pass, handle_parsed) (accept_event-keeps s event _ now q)
          | inr (policy, refused) ↦ rw (refused, handle_parsed) (audits s.store _ q)
        ]

    handle_each-keeps :
        (s : Ingestion Payload) (events : List Payload)
        (context : Option AuthenticatedIngestionContext) (clock : ℕ → String) (i : ℕ)
        → Q s.store
        → Q (handle_each payloads s events context clock i).0.store
    unfolding handle_each handle_post_event
    handle_each-keeps s [] context clock i q = q
    handle_each-keeps s (payload ∷ rest) context clock i q =
        handle_each-keeps
          (handle_parsed payloads s payload (safe_parse payload) context (clock i)).0 rest context
          clock (suc i) (handle_parsed-keeps s payload (safe_parse payload) context (clock i) q)

    pub batch-keeps :
        (s : Ingestion Payload) (payload : Payload) (context : Option AuthenticatedIngestionContext)
        (clock : ℕ → String)
        → Q s.store
        → Q (handle_post_events_batch payloads s payload context clock).0.store
    unfolding handle_post_events_batch persist_invalid
    batch-keeps s payload context clock q = elim (Option-cases (as_array payload)) [
      | inl e ↦ rw (e, handle_post_events_batch) (audits s.store _ q)
      | inr (events, e) ↦
          rw (e, handle_post_events_batch) (handle_each-keeps s events context clock 0 q)
    ]

  -- A batch keeps a consistent store consistent, also where one of its events makes it throw.
  pub batch-IsConsistent :
      (s : Ingestion Payload) (payload : Payload) (context : Option AuthenticatedIngestionContext)
      (clock : ℕ → String)
      → IsConsistent s.store
      → IsConsistent (handle_post_events_batch payloads s payload context clock).0.store
  batch-IsConsistent =
      batch-keeps IsConsistent persist_accepted-IsConsistent
        (λ s entries c. record { by_identity = c.by_identity; by_event_id = c.by_event_id })

  -- Nothing that was filed is lost or replaced by a batch, also where the batch throws.
  pub batch_keeps_filed :
      (s : Ingestion Payload) (payload : Payload) (context : Option AuthenticatedIngestionContext)
      (clock : ℕ → String) (k : List String) (r : RawEventRecord)
      → lookup k s.store.accepted_by_identity ≡ some r
      → lookup k
          (handle_post_events_batch payloads s payload context clock).0.store.accepted_by_identity
        ≡ some r
  batch_keeps_filed s payload context clock k r =
      batch-keeps (λ t. lookup k t.accepted_by_identity ≡ some r)
        (λ t event c now. persist_accepted_keeps t event c now k r) (λ t entries h. h) s payload
        context clock

  abbrev rejection : EventIngestionResult Payload → List (InvalidRawEventRecord Payload)
  rejection (accepted_event d r) = []
  rejection (invalid_event entry) = entry ∷ []
  rejection (tenant_failure policy entry) = entry ∷ []

  -- The audit records of the rejected results, in their order.
  unfoldable pub rejections :
      List (EventIngestionResult Payload) → List (InvalidRawEventRecord Payload)
  rejections [] = []
  rejections (r ∷ rs) = rejection r ++ rejections rs

  audited_once :
      (s : Ingestion Payload)
      (p : Ingestion Payload × Outcome StoreError (EventIngestionResult Payload))
      (r : EventIngestionResult Payload)
      → Leaves s p
      → p.1 ≡ ok r
      → p.0.store.invalid_events ≡ s.store.invalid_events ++ rejection r
  audited_once s (t, thrown x) r h e = cc
  audited_once s (t, ok (accepted_event d a)) r h e =
      let same : accepted_event d a ≡ r = cc in
      subst (λ q. t.store.invalid_events ≡ s.store.invalid_events ++ rejection q) same
        (h.0 ∙ sym (append_nil s.store.invalid_events))
  audited_once s (t, ok (invalid_event entry)) r h e =
      let (ids, events, grown, sink) = h in
      let same : invalid_event entry ≡ r = cc in
      subst (λ q. t.store.invalid_events ≡ s.store.invalid_events ++ rejection q) same grown
  audited_once s (t, ok (tenant_failure policy entry)) r h e =
      let (ids, events, grown, sink) = h in
      let same : tenant_failure policy entry ≡ r = cc in
      subst (λ q. t.store.invalid_events ≡ s.store.invalid_events ++ rejection q) same grown

  all_ok_iff :
      (rs : List (EventIngestionResult Payload))
      → (all_results_ok payloads rs ≡ true) ↔ (rejections rs ≡ [])
  unfolding rejections
  all_ok_iff [] = (λ h. refl, λ h. refl)
  all_ok_iff (accepted_event d r ∷ rs) = all_ok_iff rs
  all_ok_iff (invalid_event entry ∷ rs) = (λ h. cc, λ h. cc)
  all_ok_iff (tenant_failure policy entry ∷ rs) = (λ h. cc, λ h. cc)

  handle_each-audit :
      (s : Ingestion Payload) (events : List Payload)
      (context : Option AuthenticatedIngestionContext) (clock : ℕ → String) (i : ℕ)
      (rs : List (EventIngestionResult Payload))
      → (handle_each payloads s events context clock i).1 ≡ ok rs
      → ((handle_each payloads s events context clock i).0.store.invalid_events
          ≡ s.store.invalid_events ++ rejections rs)
        × (length rs ≡ length events)
  unfolding handle_each rejections
  handle_each-audit s [] context clock i rs h =
      let same : rs ≡ [] = cc in
      subst
        (λ us. (s.store.invalid_events ≡ s.store.invalid_events ++ rejections us) × (length us ≡ 0))
        (sym same) (sym (append_nil s.store.invalid_events), refl)
  handle_each-audit s (x ∷ xs) context clock i rs h =
      let p = handle_post_event payloads s x context (clock i) in
      let q = handle_each payloads p.0 xs context clock (suc i) in
      elim (Outcome-cases p.1) [
        | inr (x', e) ↦ let failed : thrown x' ≡ ok rs = rw e at h in cc
        | inl (here, e) ↦ elim (Outcome-cases q.1) [
          | inr (x', e') ↦ let failed : thrown x' ≡ ok rs = rw e' at (rw e at h) in cc
          | inl (later, e') ↦
              let shown : ◌≡◌ {A = Outcome StoreError (List (EventIngestionResult Payload))}
                  (ok (here ∷ later)) (ok rs) =
                rw e' at (rw e at h) in
              let same : here ∷ later ≡ rs = cc in
              let (grown, long) = handle_each-audit p.0 xs context clock (suc i) later e' in
              let once =
                audited_once s p here (handle_post_event-Leaves payloads s x context (clock i)) e in
              subst
                (λ us.
                  (q.0.store.invalid_events ≡ s.store.invalid_events ++ rejections us)
                  × (length us ≡ suc (length xs)))
                same
                (
                  grown
                      ∙ ap (λ es. es ++ rejections later) once
                      ∙ append_assoc s.store.invalid_events (rejection here) (rejections later),
                  ap suc long,
                )
        ]
      ]

  -- A batch of an array that is answered with results has one result for each event, appends to
  -- the audit exactly the records of its rejected results, in their order, and its flag is true
  -- exactly if none is rejected.
  pub batch-audit :
      (s : Ingestion Payload) (payload : Payload) (events : List Payload)
      (context : Option AuthenticatedIngestionContext) (clock : ℕ → String) (flag : Bool)
      (rs : List (EventIngestionResult Payload))
      → as_array payload ≡ some events
      → (handle_post_events_batch payloads s payload context clock).1 ≡ ok (batch flag rs)
      → (length rs ≡ length events)
        × ((handle_post_events_batch payloads s payload context clock).0.store.invalid_events
            ≡ s.store.invalid_events ++ rejections rs)
        × ((flag ≡ true) ↔ (rejections rs ≡ []))
  unfolding handle_post_events_batch
  batch-audit s payload events context clock flag rs e h =
      let q = handle_each payloads s events context clock 0 in
      elim (Outcome-cases q.1) [
        | inr (x, e') ↦ cc (rw e' at (rw (e, handle_post_events_batch) at h))
        | inl (later, e') ↦
            let shown : ◌≡◌ {A = Outcome StoreError (BatchIngestionResult Payload)}
                (ok (batch (all_results_ok payloads later) later)) (ok (batch flag rs)) =
              rw e' at (rw (e, handle_post_events_batch) at h) in
            let same : later ≡ rs = cc in
            let flagged : all_results_ok payloads later ≡ flag = cc in
            let (grown, long) = handle_each-audit s events context clock 0 later e' in
            rw (e, handle_post_events_batch)
              (subst
                (λ us.
                  (length us ≡ length events)
                  × (q.0.store.invalid_events ≡ s.store.invalid_events ++ rejections us)
                  × ((flag ≡ true) ↔ (rejections us ≡ [])))
                same
                (
                  long,
                  grown,
                  subst (λ b. (b ≡ true) ↔ (rejections later ≡ [])) flagged (all_ok_iff later),
                ))
      ]
