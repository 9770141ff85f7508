-- ===== src/Ingestion/Handlers/Tenancy.antt =====
-- What a credential lets through event-handlers.ts, and what each outcome leaves in the store.
use data_dyna.Base.{
  String, Option, none, some, List, Bool, true, false, ◌≡◌, refl, sym, subst, ◌∙◌, coalesce, truthy,
  any, ◌==◌, Outcome-cases, ok, arith, eq_iff, option_beq, string_eq, list_eq, ap, option_beq_iff,
  Option-cases, inl, inr, if◌then◌else◌,
}
use data_dyna.Contract.{
  DataDynaEvent, IdempotencyScope, Environment, scope_text, environment_text, source_text,
}
use data_dyna.Ingestion.Store.{
  RawEventRecord, persist_accepted, raw_event_idempotency_identity, environment_or_empty,
}
use data_dyna.Ingestion.Store.Identity.{record_identity}
use data_dyna.Ingestion.Store.Consistent.{IsConsistent}
use data_dyna.Ingestion.Store.Redelivery.{persist_accepted_filed}
use data_dyna.Ingestion.Handlers.{
  Payloads, ParseResult, success, failure, AuthenticatedIngestionContext, Ingestion, accepted_event,
  validate_tenant_policy, accept_event, handle_parsed, handle_post_event, reject_invalid_event,
  reject_tenant_policy, environment_is,
}

-- A record lies in the tenant, the producer and the source of a credential.
pub record IsOwn (context : AuthenticatedIngestionContext) (r : RawEventRecord) : Type 0 where
  pub merchant : r.merchant_id ≡ some context.merchant_id
  pub store : any (λ id. option_beq r.store_id (some id)) context.store_ids ≡ true
  pub service : r.producer_service ≡ context.producer_service
  pub environment : environment_is r.producer_environment context.producer_environment ≡ true
  pub source : source_text r.source ≡ context.source
  pub scope : r.idempotency_scope ≡ IdempotencyScope.store

same_text : (o p : Option String) → truthy o ≡ true → coalesce p "" ≡ coalesce o "" → p ≡ o
same_text none p t e = cc
same_text (some a) none t e = ground (arith, eq_iff a "")
same_text (some a) (some b) t e = cc

scope_of_text : String → IdempotencyScope
scope_of_text text =
    if text == "producer"
    then IdempotencyScope.producer
    else if text == "store"
    then IdempotencyScope.store
    else if text == "brand"
    then IdempotencyScope.brand
    else IdempotencyScope.global

scope_of_text-scope_text : (a : IdempotencyScope) → scope_of_text (scope_text a) ≡ a
unfolding scope_of_text
scope_of_text-scope_text IdempotencyScope.producer = refl
scope_of_text-scope_text _ = refl

environment_text-ne-empty : (e : Environment) → (environment_text e == "") ≡ false
environment_text-ne-empty Environment.local = refl
environment_text-ne-empty _ = refl

same_scope : (a b : IdempotencyScope) → scope_text a ≡ scope_text b → a ≡ b
same_scope a b e =
    sym (scope_of_text-scope_text a) ∙ ap scope_of_text e ∙ scope_of_text-scope_text b

same_environment :
    (a b : Option Environment) (text : String)
    → environment_or_empty a ≡ environment_or_empty b
    → environment_is b text ≡ true
    → environment_is a text ≡ true
same_environment none none text e h = h
same_environment (some a) none text e h = cc
same_environment none (some b) text e h =
    cc (environment_text-ne-empty b, (eq_iff (environment_text b) "").1 (sym e))
same_environment (some a) (some b) text e h = rw e h

abbrev names_store : Option String → List String → Bool
names_store o ids = any (λ id. option_beq o (some id)) ids

-- What an event that passes the policy is known to hold.
record Passed (context : AuthenticatedIngestionContext) (event : DataDynaEvent) : Type 0 where
  has_merchant : truthy event.identity.merchant_id ≡ true
  has_store : truthy event.identity.store_id ≡ true
  merchant : event.identity.merchant_id ≡ some context.merchant_id
  store : names_store event.identity.store_id context.store_ids ≡ true
  service : event.producer.service ≡ context.producer_service
  environment : environment_is event.producer.environment context.producer_environment ≡ true
  source : source_text event.source ≡ context.source
  scope : scope_text event.idempotency.scope ≡ "store"

policy-Passed :
    (context : AuthenticatedIngestionContext) (event : DataDynaEvent)
    → validate_tenant_policy event context ≡ none
    → Passed context event
unfolding validate_tenant_policy
policy-Passed context event pass = ground (
  arith,
  option_beq_iff event.identity.merchant_id (some context.merchant_id),
  eq_iff event.producer.service context.producer_service,
  eq_iff (source_text event.source) context.source,
)

-- The identity texts determine what the policy looks at.
policy-IsOwn :
    (context : AuthenticatedIngestionContext) (event : DataDynaEvent) (r : RawEventRecord)
    → validate_tenant_policy event context ≡ none
    → record_identity r ≡ raw_event_idempotency_identity event
    → IsOwn context r
unfolding raw_event_idempotency_identity
policy-IsOwn context event r pass same =
    let p = policy-Passed context event pass in
    let m : r.merchant_id ≡ event.identity.merchant_id = same_text _ _ p.has_merchant cc in
    let i : r.store_id ≡ event.identity.store_id = same_text _ _ p.has_store cc in
    record {
      merchant = m ∙ p.merchant;
      store = subst (λ o. names_store o context.store_ids ≡ true) (sym i) p.store;
      service = cc;
      environment =
          same_environment r.producer_environment event.producer.environment _ (cc) p.environment;
      source = cc;
      scope = same_scope r.idempotency_scope IdempotencyScope.store (cc);
    }

module _ (payloads : Payloads) where
  open payloads use {Payload, safe_parse}

  accept_event-IsOwn :
      (s : Ingestion Payload) (event : DataDynaEvent) (context : AuthenticatedIngestionContext)
      (now : String) (d : Bool) (r : RawEventRecord)
      → IsConsistent s.store
      → validate_tenant_policy event context ≡ none
      → (accept_event payloads s event (some context.credential_id) now).1 ≡ ok (accepted_event d r)
      → IsOwn context r
  unfolding accept_event
  accept_event-IsOwn s event context now d r c pass h =
      elim (Outcome-cases (persist_accepted s.store event (some context.credential_id) now).1) [
        | inl (a, e) ↦
            let same : a.row ≡ r = cc (rw (e, accept_event) at h) in
            let (own, _, _) =
              persist_accepted_filed s.store event (some context.credential_id) now a c e in
            rw (← same) (policy-IsOwn context event a.row pass own)
        | inr (x, e) ↦ absurd (cc (rw (e, accept_event) at h))
      ]

  -- With a credential and a consistent store, an accepted event is answered by a record of the
  -- credential's own merchant, stores, producer, environment and source, with the store's
  -- idempotency scope, also when the answer is the record of an earlier event.
  pub handle_post_event-IsOwn :
      (s : Ingestion Payload) (payload : Payload) (context : AuthenticatedIngestionContext)
      (now : String) (d : Bool) (r : RawEventRecord)
      → IsConsistent s.store
      → (handle_post_event payloads s payload (some context) now).1 ≡ ok (accepted_event d r)
      → IsOwn context r
  unfolding handle_post_event handle_parsed reject_tenant_policy reject_invalid_event
  handle_post_event-IsOwn s payload context now d r c h = go (safe_parse payload) h
    where
      go :
          (parsed : ParseResult)
          → (handle_parsed payloads s payload parsed (some context) now).1 ≡ ok (accepted_event d r)
          → IsOwn context r
      go (failure issues) h = absurd (cc h)
      go (success event) h = elim (Option-cases (validate_tenant_policy event context)) [
        | inl pass ↦
            accept_event-IsOwn s event context now d r c pass (rw (pass, handle_parsed) at h)
        | inr (policy, refused) ↦ absurd (cc (rw (refused, handle_parsed) at h))
      ]
