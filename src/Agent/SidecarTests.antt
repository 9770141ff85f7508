-- ===== src/Agent/SidecarTests.antt =====
-- The theorems on the running of an attempt at a harness that reads one tool it may and one it may not.
use data_dyna.Agent.Sidecar.Attempt.{
  transcript_schema, runtime_usage_metadata, runtime_schema, prompt_schema, policy_schema,
  parse_runtime, parse_prompt, parse_and_check_policy, base_audit_run, attempt_schema,
  assert_tool_surface, assert_prepared_attempt_consumable, assert_no_core_writes,
}
use data_dyna.Base.{
  insert, String, none, some, [], ◌∷◌, Bool, true, false, ◌≡◌, refl, Outcome, ok, thrown,
  if◌then◌else◌, string_eq, ◌==◌, All,
}
use data_dyna.Contract.{get_field, Json, str, obj, end, field}
use data_dyna.Agent.Run.{
  run_schema, replace_run as put_run, event_schema, draft_schema, append_run as add_run,
  append_event as add_event, AgentDraftOutput, AgentRunAuditStore, AgentRun, AgentRunStatus,
}
use data_dyna.Agent.Sidecar.{
  ◌>>◌, ◌>>=◌, throw_if, throw, lift, give, World, read_worker_freshness, read_evidence_records,
  PreparedAgentAttempt, prepared, AgentRuntimePolicy, Turn, returns, calls, Audit,
  RunAgentAttemptInput, TranscriptKind,
}
use data_dyna.Agent.Sidecar.Tools.{
  tick, takes_input, sanitize_json_value, hand_over, deny_tool, call_prepared_tool, audit_event,
  append_event, guarded_tool_call,
}
use data_dyna.Agent.Sidecar.Turns.{
  try_run, replace_run, prepare_turn, play, parse_run, fail_run, capture_draft, append_transcript,
  append_run, append_now, run_agent_attempt,
}
use data_dyna.Agent.Sidecar.Scope.{InScope, run_agent_attempt-InScope}
use data_dyna.Agent.Sidecar.Results.{HandedOver, guarded_tool_call-HandedOver}

abbrev agent_draft : AgentDraftOutput
agent_draft = record {
  truth_status = "agent_draft_not_core_truth";
  hypothesis = "Wrong orders cause refunds.";
  reasoning_summary = "Refunds follow long queues.";
  draft_experiment_plan = record {
    objective = "Fewer refunds";
    measurement_metric_id = "refund_rate";
    guardrail_metric_ids = "avg_order_value" ∷ [];
    merchant_review_required = true;
  };
  evidence_refs = "r1" ∷ [];
  allowed_draft_operations_used = [];
  requested_core_writes = 0;
  disallowed_mutation_targets_acknowledged = "menu" ∷ [];
}

abbrev projection_kind : Json
projection_kind = obj (field "workerKind" (str "projection") end)

-- Reads the freshness, and goes on when the evidence is refused.
abbrev harness : Turn
harness = calls read_worker_freshness projection_kind λ freshness.
    calls read_evidence_records (obj (field "committedJobId" (str "j1") end)) λ evidence.
      returns (record {
        draft = agent_draft;
        transcript =
            record { type = TranscriptKind.draft_emitted; tool_name = none; summary = "a draft" }
            ∷ [];
        runtime_usage = none;
      })

abbrev world : World
world = record {
  now = λ n. "t";
  decimal = λ n. "1";
  parse_date = λ t. none;
  replace_all = λ pattern t. if t == "secret" then "[redacted]" else t;
  contains_sensitive_text = λ t. t == "secret";
  byte_length = λ v. 8;
  schema_message = "rejected by the schema";
  on_audit_event = λ e. none;
  on_transcript_event = λ e. none;
  call_tool = λ tool v. ok (str "secret");
  run_turn = harness;
}

abbrev read_attempt : PreparedAgentAttempt
read_attempt = record {
  attempt_id = "at1";
  agent_run_id = "a1";
  session_id = "n1";
  brand_id = "b1";
  store_id = "s1";
  opportunity_gap_id = "g1";
  status = prepared;
  tool_catalog_version = "agent-read-tools.v1";
  max_tool_result_bytes = 64;
  allowed_read_capabilities = read_worker_freshness ∷ read_evidence_records ∷ [];
  forbidden_capabilities = "core_write" ∷ [];
  freshness_ref_count = 1;
  context_seed = some ("r1" ∷ []);
  context_seed_hash = some "hash";
}

abbrev freshness_only : AgentRuntimePolicy
freshness_only = record {
  tool_catalog_version = "agent-read-tools.v1";
  allowed_tool_names = read_worker_freshness ∷ [];
}

abbrev attempt_input : RunAgentAttemptInput
attempt_input = record {
  prepared_attempt = read_attempt;
  prompt = record { prompt_ref = "prompt"; system_instructions = "Draft a plan." };
  exposed_functions = some ("read_worker_freshness" ∷ "read_evidence_records" ∷ []);
  policy = freshness_only;
  runtime = record { provider = "p"; model = "m"; profile = "f"; auth_ref = "auth" };
  has_harness = true;
  has_callbacks = true;
}

abbrev empty_store : AgentRunAuditStore
empty_store = record { runs = []; events = [] }

abbrev at_start : Audit
at_start = record { store = empty_store; events = []; ticks = 0; called = [] }

run_agent_attempt-InScope_example :
    All (InScope world attempt_input) (run_agent_attempt world attempt_input at_start).0.called
run_agent_attempt-InScope_example = run_agent_attempt-InScope world attempt_input empty_store

hands_it_over :
    (guarded_tool_call world read_attempt freshness_only read_worker_freshness projection_kind
      at_start).1
    ≡ ok (str "[redacted]")
unfolding add_event add_run put_run append_event append_now append_run append_transcript
    assert_no_core_writes assert_prepared_attempt_consumable assert_tool_surface attempt_schema
    audit_event base_audit_run call_prepared_tool capture_draft deny_tool draft_schema event_schema
    fail_run get_field give guarded_tool_call hand_over insert lift parse_and_check_policy
    parse_prompt parse_run parse_runtime play policy_schema prepare_turn prompt_schema replace_run
    run_agent_attempt run_schema runtime_schema runtime_usage_metadata sanitize_json_value
    takes_input throw throw_if tick transcript_schema try_run ◌>>=◌ ◌>>◌
hands_it_over = refl

guarded_tool_call-HandedOver_example :
    HandedOver world read_attempt freshness_only read_worker_freshness projection_kind
      (str "[redacted]")
guarded_tool_call-HandedOver_example =
    guarded_tool_call-HandedOver world read_attempt freshness_only read_worker_freshness
      projection_kind at_start (str "[redacted]") hands_it_over

abbrev is_captured : Outcome String AgentRun → Bool
is_captured (thrown x) = false
is_captured (ok r) = captured_status r.status
  where
    captured_status : AgentRunStatus → Bool
    captured_status AgentRunStatus.draft_captured = true
    captured_status _ = false

-- The run ends with a draft and has called the one tool of its policy.
captures : is_captured (run_agent_attempt world attempt_input at_start).1 ≡ true
unfolding add_event add_run put_run append_event append_now append_run append_transcript
    assert_no_core_writes assert_prepared_attempt_consumable assert_tool_surface attempt_schema
    audit_event base_audit_run call_prepared_tool capture_draft deny_tool draft_schema event_schema
    fail_run get_field give guarded_tool_call hand_over insert lift parse_and_check_policy
    parse_prompt parse_run parse_runtime play policy_schema prepare_turn prompt_schema replace_run
    run_agent_attempt run_schema runtime_schema runtime_usage_metadata sanitize_json_value
    takes_input throw throw_if tick transcript_schema try_run ◌>>=◌ ◌>>◌
captures = refl

calls_one : (run_agent_attempt world attempt_input at_start).0.called ≡ read_worker_freshness ∷ []
unfolding add_event add_run put_run append_event append_now append_run append_transcript
    assert_no_core_writes assert_prepared_attempt_consumable assert_tool_surface attempt_schema
    audit_event base_audit_run call_prepared_tool capture_draft deny_tool draft_schema event_schema
    fail_run get_field give guarded_tool_call hand_over insert lift parse_and_check_policy
    parse_prompt parse_run parse_runtime play policy_schema prepare_turn prompt_schema replace_run
    run_agent_attempt run_schema runtime_schema runtime_usage_metadata sanitize_json_value
    takes_input throw throw_if tick transcript_schema try_run ◌>>=◌ ◌>>◌
calls_one = refl
