-- ===== src/Ingestion/Store/Identity.antt =====
-- The two comparisons of idempotency identities in raw-event-store.ts agree.
use data_dyna.Base.{String, List, [], ◌∷◌, true, ◌≡◌, ◌↔◌, coalesce, arith, eq_iff}
use data_dyna.Contract.{DataDynaEvent, source_text, scope_text}
use data_dyna.Ingestion.Store.{
  RawEventRecord, environment_or_empty, raw_event_idempotency_identity,
  record_matches_tenant_idempotency,
}

-- The identity of an accepted event, read off its record.
abbrev pub record_identity : RawEventRecord → List String
record_identity r =
    coalesce r.merchant_id ""
    ∷ coalesce r.store_id ""
    ∷ r.producer_service
    ∷ environment_or_empty r.producer_environment
    ∷ source_text r.source
    ∷ scope_text r.idempotency_scope
    ∷ r.idempotency_key
    ∷ []

-- The field by field test of a record against an event is true exactly when the two have one
-- identity key.
pub record_matches-identity :
    (r : RawEventRecord) (event : DataDynaEvent)
    → (record_matches_tenant_idempotency r event ≡ true)
      ↔ (record_identity r ≡ raw_event_idempotency_identity event)
unfolding record_matches_tenant_idempotency raw_event_idempotency_identity
record_matches-identity r event = ground (
  arith,
  eq_iff (coalesce r.merchant_id "") (coalesce event.identity.merchant_id ""),
  eq_iff (coalesce r.store_id "") (coalesce event.identity.store_id ""),
  eq_iff r.producer_service event.producer.service,
  eq_iff (environment_or_empty r.producer_environment)
      (environment_or_empty event.producer.environment),
  eq_iff (source_text r.source) (source_text event.source),
  eq_iff (scope_text r.idempotency_scope) (scope_text event.idempotency.scope),
  eq_iff r.idempotency_key event.idempotency.key,
)
