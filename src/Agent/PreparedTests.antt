-- ===== src/Agent/PreparedTests.antt =====
-- The theorems on preparing an attempt and running it, at one that requires a projection.
use data_dyna.Agent.Sidecar.Turns.{
  try_run, replace_run, prepare_turn, play, parse_run, fail_run, capture_draft, append_transcript,
  append_run, append_now, run_agent_attempt,
}
use data_dyna.Agent.Sidecar.Tools.{
  tick, takes_input, sanitize_json_value, hand_over, deny_tool, call_prepared_tool, audit_event,
  append_event, guarded_tool_call,
}
use data_dyna.Agent.Sidecar.{◌>>◌, ◌>>=◌, throw_if, throw, lift, give}
use data_dyna.Agent.Run.{run_schema, event_schema, draft_schema}
use data_dyna.Contract.{get_field}
use data_dyna.Base.{true, string_eq, insert}
use data_dyna.Agent.Sidecar.Attempt.{
  transcript_schema, runtime_usage_metadata, runtime_schema, prompt_schema, policy_schema,
  parse_runtime, parse_prompt, parse_and_check_policy, base_audit_run, attempt_schema,
  assert_tool_surface, assert_prepared_attempt_consumable, assert_no_core_writes,
}
use data_dyna.Agent.Sidecar.{World, RunAgentAttemptInput, calls, fails}
use data_dyna.Agent.Run.{
  AgentRunAuditStore, append_run as add_run, append_event as add_event, replace_run as put_run,
}
use data_dyna.Agent.Sidecar.Turns.{run_agent_attempt}
use data_dyna.Agent.Prepared.Runs.{consumed, ReadOnly, run_agent_attempt-ReadOnly}
use data_dyna.Agent.Prepared.Schemas.{catalog_of}
use data_dyna.Agent.Prepared.Policy.{
  tenant_matches, source_matches_required_refs, evaluate_prepared_attempt_policy, check_kinds,
}
use data_dyna.Base.{All, String, none, some, [], ◌∷◌, false, ◌≡◌, refl, ok, ◌==◌, string_eq}
use data_dyna.Contract.{obj, str, end, field}
use data_dyna.Agent.{unique_sorted, unique}
use data_dyna.Agent.Prepared.{
  stable_hash, byte_length, stable_stringify, has_forbidden_raw_data, forbidden_key, Platform,
  PrepareAgentAttemptInput, PreparedAgentAttempt, AgentContextSeed, WorkerFreshnessRef,
}
use data_dyna.Agent.Prepared.Schemas.{prepared_schema, require_freshness_ref}
use data_dyna.Agent.Prepared.Prepare.{
  to_worker_freshness_ref, prepare_with, prepare_agent_attempt, base_attempt, to_refs, index_of,
  seed_of,
}
use data_dyna.Agent.Prepared.Tools.{read_worker_freshness}
use data_dyna.Agent.Prepared.Ready.{Ready, prepare_agent_attempt-Ready}
use data_dyna.Agent.Sidecar.{prepared, read_projection_summary}
use data_dyna.Worker.Types.{
  WorkerKind, projection, snapshot, WorkerFreshnessRecord, text, undefined,
}

abbrev platform : Platform
platform = record {
  iso = λ t. "2026-01-02";
  is_before = λ a b. false;
  matches_secret = λ t. t == "bearer x";
  normalized = λ key. key;
  sort_entries = λ fields. fields;
  json_text = λ value. "{}";
  utf8_length = λ t. 2;
  sha256 = λ t. "abc";
  schema_message = "rejected by the schema";
  sorting = record { sort = λ ts. ts; count-sort = λ s ts. refl; sort-sort = λ ts. refl };
}

abbrev committed : WorkerKind → (store : String) → WorkerFreshnessRecord
committed kind store = record {
  checkpoint_id = "c1";
  worker_kind = kind;
  tenant_scope = record { brand_id = text "b1"; merchant_id = undefined; store_id = text store };
  source_scope = record {
    source = "pos";
    producer_service = undefined;
    producer_environment = undefined;
  };
  committed_watermark = end;
  committed_job_id = "j1";
  committed_attempt_id = 7;
  output_summary = field "orders" (str "3") end;
  committed_at = 1000;
  updated_at = 1000;
}

-- The record of the snapshot is another store's, and no snapshot is required.
abbrev attempt_input : PrepareAgentAttemptInput
attempt_input = record {
  attempt_id = "at1";
  agent_run_id = "a1";
  session_id = "n1";
  brand_id = "b1";
  store_id = "s1";
  opportunity_gap_id = "g1";
  requested_by = "operator";
  created_at = "2026-01-02";
  identity_source = "deterministic_tenant_scope";
  freshness_records = committed projection "s1" ∷ committed snapshot "s2" ∷ [];
  context_budget = record { max_seed_bytes = 64; max_tool_result_bytes = 64 };
  evidence_refs = some ("r1" ∷ []);
  assumptions = none;
  minimum_committed_at = some "2026-01-01";
  required_worker_kinds = some (projection ∷ []);
  tool_catalog = none;
  dead_letter_diagnoses = none;
}

abbrev ref_of : WorkerKind → (store : String) → WorkerFreshnessRef
ref_of kind store = record {
  worker_kind = kind;
  brand_id = some "b1";
  merchant_id = none;
  store_id = some store;
  source = "pos";
  producer_service = none;
  producer_environment = none;
  committed_job_id = "j1";
  committed_attempt_id = 7;
  committed_watermark = end;
  committed_at = "2026-01-02";
  output_summary = field "orders" (str "3") end;
}

abbrev made_seed : AgentContextSeed
made_seed = record {
  brand_id = "b1";
  store_id = "s1";
  opportunity_gap_id = "g1";
  evidence_refs = "r1" ∷ [];
  assumptions = "Peer benchmark comparison is directional and non-causal." ∷ [];
  freshness_index =
      record {
        worker_kind = projection;
        tool_name = read_projection_summary;
        committed_job_id = "j1";
        committed_attempt_id = 7;
        committed_at = "2026-01-02";
      }
      ∷ [];
}

abbrev made_attempt : PreparedAgentAttempt
made_attempt =
    base_attempt platform attempt_input prepared
      (ref_of projection "s1" ∷ ref_of snapshot "s2" ∷ []) (some made_seed) (some "sha256:abc") none

makes_it : prepare_agent_attempt platform attempt_input ≡ ok made_attempt
unfolding byte_length check_kinds evaluate_prepared_attempt_policy forbidden_key
    has_forbidden_raw_data index_of prepare_agent_attempt prepare_with prepared_schema
    read_worker_freshness require_freshness_ref seed_of source_matches_required_refs stable_hash
    stable_stringify tenant_matches to_refs to_worker_freshness_ref unique unique_sorted
makes_it = refl

prepare_agent_attempt-Ready_example : Ready platform attempt_input made_attempt
prepare_agent_attempt-Ready_example =
    prepare_agent_attempt-Ready platform attempt_input made_attempt made_seed makes_it refl

-- What is not required is not compared with the attempt's store.
reads_another_store :
    read_worker_freshness platform made_attempt snapshot ≡ ok (ref_of snapshot "s2")
unfolding byte_length check_kinds evaluate_prepared_attempt_policy forbidden_key
    has_forbidden_raw_data index_of prepare_agent_attempt prepare_with prepared_schema
    read_worker_freshness require_freshness_ref seed_of source_matches_required_refs stable_hash
    stable_stringify tenant_matches to_refs to_worker_freshness_ref unique unique_sorted
reads_another_store = refl

-- A harness that reads one summary and gives up.
abbrev world : World
world = record {
  now = λ n. "t";
  decimal = λ n. "1";
  parse_date = λ t. none;
  replace_all = λ pattern t. t;
  contains_sensitive_text = λ t. false;
  byte_length = λ v. 8;
  schema_message = "rejected by the schema";
  on_audit_event = λ e. none;
  on_transcript_event = λ e. none;
  call_tool = λ tool v. ok (str "3 orders");
  run_turn =
      calls read_projection_summary (obj (field "committedJobId" (str "j1") end))
        λ summary. fails "no draft";
}

abbrev run_input : RunAgentAttemptInput
run_input = record {
  prepared_attempt = consumed made_attempt;
  prompt = record { prompt_ref = "prompt"; system_instructions = "Draft a plan." };
  exposed_functions = some ("read_projection_summary" ∷ []);
  policy = record {
    tool_catalog_version = "agent-read-tools.v1";
    allowed_tool_names = read_projection_summary ∷ [];
  };
  runtime = record { provider = "p"; model = "m"; profile = "f"; auth_ref = "auth" };
  has_harness = true;
  has_callbacks = true;
}

abbrev empty_store : AgentRunAuditStore
empty_store = record { runs = []; events = [] }

run_agent_attempt-ReadOnly_example :
    All
      (ReadOnly (catalog_of attempt_input))
      (run_agent_attempt world run_input
        (record { store = empty_store; events = []; ticks = 0; called = [] })).0.called
run_agent_attempt-ReadOnly_example =
    run_agent_attempt-ReadOnly platform attempt_input made_attempt made_seed world run_input
      empty_store makes_it refl refl

calls_one :
    (run_agent_attempt world run_input
      (record { store = empty_store; events = []; ticks = 0; called = [] })).0.called
    ≡ read_projection_summary ∷ []
unfolding add_event add_run put_run append_event append_now append_run append_transcript
    assert_no_core_writes assert_prepared_attempt_consumable assert_tool_surface attempt_schema
    audit_event base_audit_run call_prepared_tool capture_draft deny_tool draft_schema event_schema
    fail_run get_field give guarded_tool_call hand_over insert lift parse_and_check_policy
    parse_prompt parse_run parse_runtime play policy_schema prepare_turn prompt_schema replace_run
    run_agent_attempt run_schema runtime_schema runtime_usage_metadata sanitize_json_value
    takes_input throw throw_if tick transcript_schema try_run ◌>>=◌ ◌>>◌
calls_one = refl
