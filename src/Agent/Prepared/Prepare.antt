-- ===== src/Agent/Prepared/Prepare.antt =====
-- `prepareAgentAttempt` and the read-only tools of src/agent/prepared-attempt.ts.
use data_dyna.Base.{
  String, Option, none, some, List, [], ◌∷◌, map, Bool, not, string_eq, select, coalesce, ltb,
  Outcome, ok, thrown, ◌>>=◌, if◌then◌else◌,
}
use data_dyna.Contract.{obj}
use data_dyna.Agent.{unique_sorted}
use data_dyna.Agent.Sidecar.{PreparedAttemptStatus, prepared, blocked_policy}
use data_dyna.Agent.Prepared.{
  Platform, context_budget_exceeded, PreparedAttemptFailureReason, WorkerFreshnessRef,
  FreshnessIndexEntry, AgentContextSeed, PreparedAgentAttempt, PrepareAgentAttemptInput,
  has_forbidden_raw_data, stable_hash, byte_length,
}
use data_dyna.Agent.Prepared.Policy.{PolicyFailure, evaluate_prepared_attempt_policy}
use data_dyna.Worker.Types.{WorkerKind, kind_eq, WorkerFreshnessRecord, to_column}
use data_dyna.Agent.Prepared.Schemas.{
  ref_schema, seed_schema, prepared_schema, forbidden_agent_capabilities, tool_name_for_worker_kind,
  require_freshness_ref, required_of, catalog_of, seed_json,
}

module _ (platform : Platform) where
  abbrev pub schema_parse : {A : Type 0} → Bool → A → Outcome String A
  schema_parse taken a = if taken then ok a else thrown platform.schema_message

  unfoldable pub to_worker_freshness_ref : WorkerFreshnessRecord → Outcome String WorkerFreshnessRef
  to_worker_freshness_ref r =
      let ref : WorkerFreshnessRef = record {
        worker_kind = r.worker_kind;
        brand_id = to_column r.tenant_scope.brand_id;
        merchant_id = to_column r.tenant_scope.merchant_id;
        store_id = to_column r.tenant_scope.store_id;
        source = r.source_scope.source;
        producer_service = to_column r.source_scope.producer_service;
        producer_environment = to_column r.source_scope.producer_environment;
        committed_job_id = r.committed_job_id;
        committed_attempt_id = r.committed_attempt_id;
        committed_watermark = r.committed_watermark;
        committed_at = platform.iso r.committed_at;
        output_summary = r.output_summary;
      } in
      schema_parse (ref_schema ref) ref

  unfoldable pub to_refs : List WorkerFreshnessRecord → Outcome String (List WorkerFreshnessRef)
  to_refs [] = ok []
  to_refs (r ∷ rs) = to_worker_freshness_ref r >>= λ ref. to_refs rs >>= λ refs. ok (ref ∷ refs)

  unfoldable pub safe_freshness_refs : List WorkerFreshnessRef → List WorkerFreshnessRef
  safe_freshness_refs refs =
      select (λ ref. not (has_forbidden_raw_data platform (obj ref.output_summary))) refs

  unfoldable pub index_of :
      List WorkerFreshnessRef → List WorkerKind → Outcome String (List FreshnessIndexEntry)
  index_of refs [] = ok []
  index_of refs (kind ∷ kinds) = require_freshness_ref refs kind >>= λ ref.
      index_of refs kinds >>= λ entries. ok (
        record {
          worker_kind = kind;
          tool_name = tool_name_for_worker_kind kind;
          committed_job_id = ref.committed_job_id;
          committed_attempt_id = ref.committed_attempt_id;
          committed_at = ref.committed_at;
        }
        ∷ entries)

  module _ (input : PrepareAgentAttemptInput) where
    abbrev pub base_attempt :
        PreparedAttemptStatus
        → List WorkerFreshnessRef
        → Option AgentContextSeed
        → Option String
        → Option PreparedAttemptFailureReason
        → PreparedAgentAttempt
    base_attempt status refs seed hash reason = record {
      attempt_id = input.attempt_id;
      agent_run_id = input.agent_run_id;
      session_id = input.session_id;
      brand_id = input.brand_id;
      store_id = input.store_id;
      opportunity_gap_id = input.opportunity_gap_id;
      requested_by = input.requested_by;
      created_at = input.created_at;
      status = status;
      context_budget = input.context_budget;
      allowed_read_capabilities = map (λ tool. tool.name) (catalog_of input);
      forbidden_capabilities = forbidden_agent_capabilities;
      worker_freshness_refs = refs;
      context_seed = seed;
      context_seed_hash = hash;
      failure_reason = reason;
    }

    abbrev pub parse_attempt : PreparedAgentAttempt → Outcome String PreparedAgentAttempt
    parse_attempt attempt = schema_parse (prepared_schema attempt) attempt

    unfoldable pub seed_of : List FreshnessIndexEntry → AgentContextSeed
    seed_of entries = record {
      brand_id = input.brand_id;
      store_id = input.store_id;
      opportunity_gap_id = input.opportunity_gap_id;
      evidence_refs = unique_sorted platform.sorting (coalesce input.evidence_refs []);
      assumptions =
          coalesce input.assumptions
            ("Peer benchmark comparison is directional and non-causal." ∷ []);
      freshness_index = entries;
    }

    abbrev pub within_budget :
        List WorkerFreshnessRef
        → AgentContextSeed
        → PreparedAgentAttempt
        → Outcome String PreparedAgentAttempt
    within_budget refs seed attempt =
        if ltb input.context_budget.max_seed_bytes (byte_length platform (seed_json seed))
        then parse_attempt (
            base_attempt blocked_policy refs none none (
              some (record {
                code = context_budget_exceeded;
                message = "Prepared attempt context seed exceeds the configured context budget.";
              })))
        else ok attempt

    unfoldable pub prepare_with :
        List WorkerFreshnessRef → Option PolicyFailure → Outcome String PreparedAgentAttempt
    unfolding seed_schema
    prepare_with refs (some f) =
        parse_attempt (base_attempt f.status (safe_freshness_refs refs) none none (some f.reason))
    prepare_with refs none = index_of refs (required_of input) >>= λ entries.
        schema_parse (seed_schema (seed_of entries)) (seed_of entries) >>= λ seed.
        parse_attempt (
          base_attempt prepared refs (some seed) (some (stable_hash platform (seed_json seed)))
            none)
        >>= λ attempt. within_budget refs seed attempt

    unfoldable pub prepare_agent_attempt : Outcome String PreparedAgentAttempt
    prepare_agent_attempt = to_refs input.freshness_records >>= λ refs. prepare_with refs (
        evaluate_prepared_attempt_policy platform input refs (required_of input) (catalog_of input))
