-- ===== src/Ingestion/Handlers.antt =====
-- src/ingestion/event-handlers.ts: one event, a batch of events, and the tenant policy.
-- Zod's `safeParse` of the event schema, `Array.isArray` and the event as a payload are the
-- parameter `Payloads`. In the in-memory store no step of a handler awaits before the store is
-- written, so the events of a batch are stored in order. The sink is the list of what was put in.
pub mod Tenancy
pub mod Audit
pub mod Batch
use data_dyna.Base.{
  ℕ, suc, String, Option, none, some, List, [], ◌∷◌, ◌++◌, Bool, true, false, not, ◌&&◌, ◌||◌, ◌==◌,
  string_eq, coalesce, truthy, any, all, head?, Outcome, ok, thrown, if◌then◌else◌, option_beq,
  or_else,
}
use Prim.Native.String.{◌++◌ as string_append}
use data_dyna.Contract.{DataDynaEvent, Environment, IdempotencyScope, environment_text, source_text}
use data_dyna.Ingestion.Store.{
  RawEventStore, RawEventRecord, InvalidRawEventRecord, InvalidRawEventAuditContext, StoreError,
  PersistAcceptedResult, persist_accepted, persist_invalid,
}
use data_dyna.Ingestion.Sink.{PostHogSinkEvent, to_posthog_sink_event}

pub data ParseResult : Type 0 where
  success : DataDynaEvent → ParseResult
  failure : (issues : List String) → ParseResult

-- What the handlers use of zod and of untyped values.
pub record Payloads : Type 1 where
  pub Payload : Type 0
  pub safe_parse : Payload → ParseResult
  pub as_array : Payload → Option (List Payload)
  pub of_event : DataDynaEvent → Payload

pub record AuthenticatedIngestionContext : Type 0 where
  pub credential_id : String
  pub merchant_id : String
  pub store_ids : List String
  pub producer_service : String
  pub producer_environment : String
  pub source : String

pub data TenantPolicyErrorCode : Type 0 where
  tenant_identity_required tenant_mismatch : TenantPolicyErrorCode

abbrev pub code_text : TenantPolicyErrorCode → String
code_text tenant_identity_required = "TENANT_IDENTITY_REQUIRED"
code_text tenant_mismatch = "TENANT_MISMATCH"

pub record TenantPolicyFailure : Type 0 where
  pub status : ℕ
  pub code : TenantPolicyErrorCode
  pub message : String

pub data EventIngestionResult (P : Type 0) : Type 0 where
  accepted_event : (duplicate : Bool) → RawEventRecord → EventIngestionResult P
  invalid_event : InvalidRawEventRecord P → EventIngestionResult P
  tenant_failure : TenantPolicyFailure → InvalidRawEventRecord P → EventIngestionResult P

abbrev pub is_ok : {P : Type 0} → EventIngestionResult P → Bool
is_ok (accepted_event d r) = true
is_ok (invalid_event i) = false
is_ok (tenant_failure f i) = false

pub data BatchIngestionResult (P : Type 0) : Type 0 where
  batch : (all_ok : Bool) → List (EventIngestionResult P) → BatchIngestionResult P
  not_an_array : InvalidRawEventRecord P → BatchIngestionResult P

pub record Ingestion (P : Type 0) : Type 0 where
  pub store : RawEventStore P
  pub sink : Option (List PostHogSinkEvent)

abbrev pub is_store_scope : IdempotencyScope → Bool
is_store_scope IdempotencyScope.store = true
is_store_scope _ = false

abbrev pub environment_is : Option Environment → String → Bool
environment_is none text = false
environment_is (some e) text = environment_text e == text

abbrev pub environment_name : Option Environment → Option String
environment_name none = none
environment_name (some e) = some (environment_text e)

abbrev pub is_some : Option Environment → Bool
is_some none = false
is_some (some e) = true

-- `none` is the outcome `{ ok: true }`.
unfoldable pub validate_tenant_policy :
    DataDynaEvent → AuthenticatedIngestionContext → Option TenantPolicyFailure
validate_tenant_policy event context =
    if not (truthy event.identity.merchant_id)
      || not (truthy event.identity.store_id)
      || not (is_some event.producer.environment)
      || not (is_store_scope event.idempotency.scope)
    then some (record {
      status = 400;
      code = tenant_identity_required;
      message = "Tenant identity required";
    })
    else if not (option_beq event.identity.merchant_id (some context.merchant_id))
        || not (any (λ id. option_beq event.identity.store_id (some id)) context.store_ids)
        || not (event.producer.service == context.producer_service)
        || not (environment_is event.producer.environment context.producer_environment)
        || not (source_text event.source == context.source)
    then some (record { status = 403; code = tenant_mismatch; message = "Tenant mismatch" })
    else none

-- The event's own values come first, then the credential's.
unfoldable pub build_invalid_audit_context :
    Option AuthenticatedIngestionContext
    → Option DataDynaEvent
    → Option String
    → Option InvalidRawEventAuditContext
build_invalid_audit_context none event reason = none
build_invalid_audit_context (some c) none reason = some (record {
  credential_id = some c.credential_id;
  merchant_id = some c.merchant_id;
  store_id = head? c.store_ids;
  producer_service = some c.producer_service;
  producer_environment = some c.producer_environment;
  source = some c.source;
  reason_code = reason;
})
build_invalid_audit_context (some c) (some event) reason = some (record {
  credential_id = some c.credential_id;
  merchant_id = or_else event.identity.merchant_id (some c.merchant_id);
  store_id = or_else event.identity.store_id (head? c.store_ids);
  producer_service = some event.producer.service;
  producer_environment =
      or_else (environment_name event.producer.environment) (some c.producer_environment);
  source = some (source_text event.source);
  reason_code = reason;
})

-- `issues.map((issue) => issue.message).join("; ")`.
unfoldable pub join : String → List String → String
join sep [] = ""
join sep (x ∷ []) = x
join sep (x ∷ y ∷ rest) = string_append x (string_append sep (join sep (y ∷ rest)))

abbrev pub enqueue_to :
    DataDynaEvent → Option (List PostHogSinkEvent) → Option (List PostHogSinkEvent)
enqueue_to event none = none
enqueue_to event (some queue) = some (queue ++ to_posthog_sink_event event ∷ [])

module _ (payloads : Payloads) where
  open payloads use {Payload, safe_parse, as_array, of_event}

  unfoldable pub reject_invalid_event :
      Ingestion Payload
      → Payload
      → List String
      → Option AuthenticatedIngestionContext
      → String
      → Ingestion Payload × EventIngestionResult Payload
  reject_invalid_event s payload issues context now =
      let (store, entry) =
        persist_invalid s.store payload (join "; " issues)
          (build_invalid_audit_context context none none) now in
      (record s { store = store }, invalid_event entry)

  unfoldable pub reject_tenant_policy :
      Ingestion Payload
      → DataDynaEvent
      → TenantPolicyFailure
      → AuthenticatedIngestionContext
      → String
      → Ingestion Payload × EventIngestionResult Payload
  reject_tenant_policy s event policy context now =
      let (store, entry) =
        persist_invalid s.store (of_event event) policy.message
          (build_invalid_audit_context (some context) (some event) (some (code_text policy.code)))
          now in
      (record s { store = store }, tenant_failure policy entry)

  unfoldable pub enqueue_product_analytics : DataDynaEvent → Ingestion Payload → Ingestion Payload
  enqueue_product_analytics event s = record s { sink = enqueue_to event s.sink }

  -- What follows the call of the store.
  unfoldable pub after_persist :
      Ingestion Payload
      → DataDynaEvent
      → RawEventStore Payload × Outcome StoreError PersistAcceptedResult
      → Ingestion Payload × Outcome StoreError (EventIngestionResult Payload)
  unfolding enqueue_product_analytics
  after_persist s event (store, thrown e) = (record s { store = store }, thrown e)
  after_persist s event (store, ok persisted) =
      let t = record s { store = store } in
      (
        if persisted.duplicate then t else enqueue_product_analytics event t,
        ok (accepted_event persisted.duplicate persisted.row),
      )

  unfoldable pub accept_event :
      Ingestion Payload
      → DataDynaEvent
      → Option String
      → String
      → Ingestion Payload × Outcome StoreError (EventIngestionResult Payload)
  unfolding after_persist
  accept_event s event credential now =
      after_persist s event (persist_accepted s.store event credential now)

  abbrev pub returned :
      Ingestion Payload × EventIngestionResult Payload
      → Ingestion Payload × Outcome StoreError (EventIngestionResult Payload)
  returned (s, r) = (s, ok r)

  unfoldable pub handle_parsed :
      Ingestion Payload
      → Payload
      → ParseResult
      → Option AuthenticatedIngestionContext
      → String
      → Ingestion Payload × Outcome StoreError (EventIngestionResult Payload)
  handle_parsed s payload (failure issues) context now =
      returned (reject_invalid_event s payload issues context now)
  handle_parsed s payload (success event) none now = accept_event s event none now
  handle_parsed s payload (success event) (some context) now =
      elim (validate_tenant_policy event context) [
        | some policy ↦ returned (reject_tenant_policy s event policy context now)
        | none ↦ accept_event s event (some context.credential_id) now
      ]

  unfoldable pub handle_post_event :
      Ingestion Payload
      → Payload
      → Option AuthenticatedIngestionContext
      → String
      → Ingestion Payload × Outcome StoreError (EventIngestionResult Payload)
  unfolding handle_parsed
  handle_post_event s payload context now = handle_parsed s payload (safe_parse payload) context now

  -- Every handler of a batch runs; the first error thrown is the one that `Promise.all` gives.
  abbrev pub combine :
      Outcome StoreError (EventIngestionResult Payload)
      → Outcome StoreError (List (EventIngestionResult Payload))
      → Outcome StoreError (List (EventIngestionResult Payload))
  combine (thrown e) rest = thrown e
  combine (ok r) (thrown e) = thrown e
  combine (ok r) (ok rs) = ok (r ∷ rs)

  -- `clock i` is the time at which the `i`-th event of the batch is handled.
  unfoldable pub handle_each :
      Ingestion Payload
      → List Payload
      → Option AuthenticatedIngestionContext
      → (ℕ → String)
      → ℕ
      → Ingestion Payload × Outcome StoreError (List (EventIngestionResult Payload))
  handle_each s [] context clock i = (s, ok [])
  handle_each s (payload ∷ rest) context clock i =
      let (t, here) = handle_post_event s payload context (clock i) in
      let (u, later) = handle_each t rest context clock (suc i) in (u, combine here later)

  abbrev pub all_results_ok : List (EventIngestionResult Payload) → Bool
  all_results_ok = all is_ok

  abbrev to_batch :
      Outcome StoreError (List (EventIngestionResult Payload))
      → Outcome StoreError (BatchIngestionResult Payload)
  to_batch (thrown e) = thrown e
  to_batch (ok rs) = ok (batch (all_results_ok rs) rs)

  unfoldable pub handle_post_events_batch :
      Ingestion Payload
      → Payload
      → Option AuthenticatedIngestionContext
      → (ℕ → String)
      → Ingestion Payload × Outcome StoreError (BatchIngestionResult Payload)
  unfolding handle_each
  handle_post_events_batch s payload context clock = elim (as_array payload) [
    | none ↦
        let (store, entry) =
          persist_invalid s.store payload "Batch payload must be an array"
            (build_invalid_audit_context context none none) (clock 0) in
        (record s { store = store }, ok (not_an_array entry))
    | some events ↦ let (t, results) = handle_each s events context clock 0 in (t, to_batch results)
  ]
