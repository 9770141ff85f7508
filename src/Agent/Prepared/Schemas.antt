-- ===== src/Agent/Prepared/Schemas.antt =====
-- The schemas, the defaults and the seed of src/agent/prepared-attempt.ts.
use data_dyna.Base.{
  String, Option, none, some, List, [], ◌∷◌, map, Bool, true, ◌&&◌, string_eq, all, coalesce, ltb,
  Outcome, or_throw,
}
use data_dyna.Base.Int.{pos}
use Prim.Native.String.{◌++◌ as string_append}
use data_dyna.Contract.{Json, Items, num, str, arr, obj, nil, cons, end, field}
use data_dyna.Agent.{nonempty, all_hold}
use data_dyna.Agent.Run.{nonempty_if_given}
use data_dyna.Agent.Sidecar.{
  AgentReadOnlyToolName, tool_text, agent_runtime_tool_names, read_projection_summary,
  read_snapshot_summary, read_benchmark_opportunity_gaps, read_evidence_records,
}
use data_dyna.Agent.Prepared.{
  PreparedAttemptFailureReason, WorkerFreshnessRef, AgentReadOnlyToolDescriptor,
  FreshnessIndexEntry, AgentContextSeed, PreparedAgentAttempt, PrepareAgentAttemptInput,
}
use data_dyna.Agent.Prepared.Policy.{ref_for}
use data_dyna.Worker.Types.{
  WorkerKind, projection, snapshot, benchmark, evidence, kind_eq, kind_text,
}

abbrev pub ref_schema : WorkerFreshnessRef → Bool
ref_schema r = all_hold (
    nonempty_if_given r.brand_id
    ∷ nonempty_if_given r.merchant_id
    ∷ nonempty_if_given r.store_id
    ∷ nonempty r.source
    ∷ nonempty_if_given r.producer_service
    ∷ nonempty_if_given r.producer_environment
    ∷ nonempty r.committed_job_id
    ∷ nonempty r.committed_at
    ∷ [])

abbrev pub entry_schema : FreshnessIndexEntry → Bool
entry_schema e = nonempty e.committed_job_id && nonempty e.committed_at

unfoldable pub seed_schema : AgentContextSeed → Bool
seed_schema s = all_hold (
    nonempty s.brand_id
    ∷ nonempty s.store_id
    ∷ nonempty s.opportunity_gap_id
    ∷ all nonempty s.evidence_refs
    ∷ all nonempty s.assumptions
    ∷ all entry_schema s.freshness_index
    ∷ [])

abbrev pub seed_if_given : Option AgentContextSeed → Bool
seed_if_given none = true
seed_if_given (some seed) = seed_schema seed

abbrev pub reason_if_given : Option PreparedAttemptFailureReason → Bool
reason_if_given none = true
reason_if_given (some reason) = nonempty reason.message

unfoldable pub prepared_schema : PreparedAgentAttempt → Bool
unfolding seed_schema
prepared_schema a = all_hold (
    nonempty a.attempt_id
    ∷ nonempty a.agent_run_id
    ∷ nonempty a.session_id
    ∷ nonempty a.brand_id
    ∷ nonempty a.store_id
    ∷ nonempty a.opportunity_gap_id
    ∷ nonempty a.requested_by
    ∷ nonempty a.created_at
    ∷ ltb 0 a.context_budget.max_seed_bytes
    ∷ ltb 0 a.context_budget.max_tool_result_bytes
    ∷ all nonempty a.forbidden_capabilities
    ∷ all ref_schema a.worker_freshness_refs
    ∷ seed_if_given a.context_seed
    ∷ nonempty_if_given a.context_seed_hash
    ∷ reason_if_given a.failure_reason
    ∷ [])

abbrev pub required_worker_kinds_for_prepared_attempt : List WorkerKind
required_worker_kinds_for_prepared_attempt = projection ∷ snapshot ∷ benchmark ∷ evidence ∷ []

abbrev pub forbidden_agent_capabilities : List String
forbidden_agent_capabilities =
    "arbitrary_sql" ∷ "raw_payload_read" ∷ "secret_read" ∷ "worker_mutation" ∷ "core_write"
    ∷ "business_mutation" ∷ "evidence_promotion" ∷ "merchant_decision_authority"
    ∷ "runtime_fallback_authority" ∷ []

abbrev pub default_agent_read_only_tool_descriptors : List AgentReadOnlyToolDescriptor
default_agent_read_only_tool_descriptors =
    map
      (λ name. record {
        name = name;
        capability = "read_context";
        mutation_policy = "no_core_or_business_mutation";
      })
      agent_runtime_tool_names

abbrev pub tool_name_for_worker_kind : WorkerKind → AgentReadOnlyToolName
tool_name_for_worker_kind projection = read_projection_summary
tool_name_for_worker_kind snapshot = read_snapshot_summary
tool_name_for_worker_kind benchmark = read_benchmark_opportunity_gaps
tool_name_for_worker_kind evidence = read_evidence_records

unfoldable pub require_freshness_ref :
    List WorkerFreshnessRef → WorkerKind → Outcome String WorkerFreshnessRef
require_freshness_ref refs kind = or_throw (ref_for refs kind) (
    string_append "Prepared attempt does not include freshness ref for "
      (string_append (kind_text kind) "."))

abbrev pub required_of : PrepareAgentAttemptInput → List WorkerKind
required_of input = coalesce input.required_worker_kinds required_worker_kinds_for_prepared_attempt

abbrev pub catalog_of : PrepareAgentAttemptInput → List AgentReadOnlyToolDescriptor
catalog_of input = coalesce input.tool_catalog default_agent_read_only_tool_descriptors

abbrev pub texts_json : List String → Items
texts_json [] = nil
texts_json (t ∷ ts) = cons (str t) (texts_json ts)

abbrev pub index_json : List FreshnessIndexEntry → Items
index_json [] = nil
index_json (e ∷ es) =
    cons
      (obj (
        field "workerKind" (str (kind_text e.worker_kind)) (
          field "toolName" (str (tool_text e.tool_name)) (
            field "committedJobId" (str e.committed_job_id) (
              field "committedAttemptId" (num (pos e.committed_attempt_id))
                (field "committedAt" (str e.committed_at) end))))))
      (index_json es)

-- A seed as the object that is hashed.
unfoldable pub seed_json : AgentContextSeed → Json
seed_json s = obj (
    field "seedVersion" (str "agent-context-seed.v1") (
      field "brandId" (str s.brand_id) (
        field "storeId" (str s.store_id) (
          field "opportunityGapId" (str s.opportunity_gap_id) (
            field "contextBundleVersion" (str "agent-context-bundle.v1") (
              field "evidenceRefs" (arr (texts_json s.evidence_refs)) (
                field "assumptions" (arr (texts_json s.assumptions))
                  (field "freshnessIndex" (arr (index_json s.freshness_index)) end))))))))
