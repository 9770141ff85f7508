-- ===== src/Agent/Sidecar/Attempt.antt =====
-- The checks before a prepared attempt runs, in src/agent/agent-sidecar.ts.
use data_dyna.Base.{
  ℕ, String, Option, none, some, List, [], ◌∷◌, Bool, true, false, not, ◌&&◌, ◌||◌, ◌==◌, string_eq,
  nat_beq, all, find?, length, ltb, coalesce, if◌then◌else◌,
}
use data_dyna.Base.Int.{pos}
use Prim.Native.String.{◌++◌ as string_append}
use data_dyna.Contract.{Items, Fields, num, str, obj, nil, cons, end, field}
use data_dyna.Agent.{all_hold, nonempty, includes}
use data_dyna.Agent.Plan.{draft_truth_status}
use data_dyna.Agent.Run.{
  AgentRun, AgentRunStatus, pi_sdk_adapter, unselected, AgentDraftOutput, AgentRuntimeUsage,
  nonempty_if_given,
}
use data_dyna.Agent.Sidecar.{
  AgentReadOnlyToolName, tool_text, agent_runtime_tool_names, names_tool, PreparedAttemptStatus,
  prepared, status_text, PreparedAgentAttempt, AgentAttemptPrompt, AgentRuntimePolicy,
  SelectedAgentRuntimeConfig, AgentHarnessTranscriptEvent, World, RunAgentAttemptInput, Act, ◌>>◌,
  throw, throw_if,
}

abbrev pub tool_catalog : String
tool_catalog = "agent-read-tools.v1"

abbrev pub attempt_fields : PreparedAgentAttempt → List Bool
attempt_fields a =
    nonempty a.attempt_id
    ∷ nonempty a.agent_run_id
    ∷ nonempty a.session_id
    ∷ nonempty a.brand_id
    ∷ nonempty a.store_id
    ∷ nonempty a.opportunity_gap_id
    ∷ (a.tool_catalog_version == tool_catalog)
    ∷ ltb 0 a.max_tool_result_bytes
    ∷ all nonempty a.forbidden_capabilities
    ∷ nonempty_if_given a.context_seed_hash
    ∷ []

-- The schemas of the inputs.
unfoldable pub attempt_schema : PreparedAgentAttempt → Bool
attempt_schema a = all_hold (attempt_fields a)

unfoldable pub prompt_schema : AgentAttemptPrompt → Bool
prompt_schema p = nonempty p.prompt_ref && nonempty p.system_instructions

unfoldable pub policy_schema : AgentRuntimePolicy → Bool
policy_schema p =
    p.tool_catalog_version == tool_catalog && not (nat_beq (length p.allowed_tool_names) 0)

unfoldable pub runtime_schema : SelectedAgentRuntimeConfig → Bool
runtime_schema r =
    nonempty r.provider && nonempty r.model && nonempty r.profile && nonempty r.auth_ref

unfoldable pub transcript_schema : List AgentHarnessTranscriptEvent → Bool
transcript_schema = all (λ e. nonempty e.summary)

abbrev pub selected : Bool → String → String
selected b text = if b then text else "unselected"

unfoldable pub base_audit_run : RunAgentAttemptInput → (started_at : String) → AgentRun
unfolding prompt_schema runtime_schema
base_audit_run input started_at =
    let attempt = input.prepared_attempt in
    let chosen = runtime_schema input.runtime in
    record {
      agent_run_id = attempt.agent_run_id;
      session_id = attempt.session_id;
      attempt_id = attempt.attempt_id;
      brand_id = attempt.brand_id;
      store_id = attempt.store_id;
      opportunity_gap_id = attempt.opportunity_gap_id;
      status = AgentRunStatus.started;
      started_at = started_at;
      completed_at = none;
      provider = selected chosen input.runtime.provider;
      model = selected chosen input.runtime.model;
      profile = selected chosen input.runtime.profile;
      runtime_mode = if chosen then pi_sdk_adapter else unselected;
      auth_ref = selected chosen input.runtime.auth_ref;
      prompt_ref = selected (prompt_schema input.prompt) input.prompt.prompt_ref;
      context_seed_hash = coalesce attempt.context_seed_hash "missing_context_seed_hash";
      runtime_usage = none;
      draft = none;
      error_message = none;
      evidence_refs = coalesce attempt.context_seed [];
    }

abbrev pub text_items : List String → Items
text_items [] = nil
text_items (t ∷ ts) = cons (str t) (text_items ts)

abbrev pub tool_or_none : Option AgentReadOnlyToolName → String
tool_or_none none = "none"
tool_or_none (some tool) = tool_text tool

-- `toJsonMetadata` leaves out what is undefined.
abbrev with_count : String → Option ℕ → Fields → Fields
with_count key none rest = rest
with_count key (some n) rest = field key (num (pos n)) rest

abbrev with_text : String → Option String → Fields → Fields
with_text key none rest = rest
with_text key (some t) rest = field key (str t) rest

unfoldable pub runtime_usage_metadata : AgentRuntimeUsage → Fields
runtime_usage_metadata u = with_count "inputTokens" u.input_tokens (
    with_count "outputTokens" u.output_tokens (
      with_count "totalTokens" u.total_tokens (
        with_count "estimatedCostMicros" u.estimated_cost_micros
          (with_text "currency" u.currency end))))

abbrev pub usage_field : Option AgentRuntimeUsage → Fields
usage_field none = end
usage_field (some u) = field "runtimeUsage" (obj (runtime_usage_metadata u)) end

abbrev is_prepared : PreparedAttemptStatus → Bool
is_prepared prepared = true
is_prepared _ = false

abbrev pub is_given : {A : Type 0} → Option A → Bool
is_given none = false
is_given (some a) = true

-- `!contextSeedHash` is true of the empty text too.
abbrev has_text : Option String → Bool
has_text none = false
has_text (some t) = nonempty t

unfoldable pub assert_prepared_attempt_consumable : PreparedAgentAttempt → Act (Unit {0})
assert_prepared_attempt_consumable attempt =
    throw_if (not (is_prepared attempt.status)) (
      string_append "Prepared attempt is not consumable by Agent runtime: "
        (string_append (status_text attempt.status) "."))
    >> throw_if (not (is_given attempt.context_seed) || not (has_text attempt.context_seed_hash))
        "Prepared attempt is missing context seed or context seed hash."

unfoldable pub parse_prompt : World → AgentAttemptPrompt → Act (Unit {0})
parse_prompt world prompt =
    throw_if (not (prompt_schema prompt)) world.schema_message
    >> throw_if
        (world.contains_sensitive_text prompt.prompt_ref
          || world.contains_sensitive_text prompt.system_instructions)
        "Agent prompt contains sensitive token-like content and cannot be sent to runtime."

abbrev pub out_of_scope : AgentRuntimePolicy → PreparedAgentAttempt → Option AgentReadOnlyToolName
out_of_scope policy attempt =
    find? (λ tool. not (names_tool attempt.allowed_read_capabilities (tool_text tool)))
      policy.allowed_tool_names

unfoldable pub parse_and_check_policy :
    World → AgentRuntimePolicy → PreparedAgentAttempt → Act (Unit {0})
parse_and_check_policy world policy attempt =
    throw_if (not (policy_schema policy)) world.schema_message
    >> (throw_if (not (policy.tool_catalog_version == attempt.tool_catalog_version))
          "Agent runtime policy tool catalog version does not match prepared attempt catalog version."
        >> throw_if (is_given (out_of_scope policy attempt)) (
            string_append "Agent runtime policy allows a tool outside prepared attempt scope: "
              (string_append (tool_or_none (out_of_scope policy attempt)) ".")))

abbrev unavailable : List String → AgentRuntimePolicy → Option AgentReadOnlyToolName
unavailable names policy =
    find? (λ tool. not (includes names (tool_text tool))) policy.allowed_tool_names

unfoldable pub assert_tool_surface : Option (List String) → AgentRuntimePolicy → Act (Unit {0})
assert_tool_surface none policy = throw "Agent runtime requires a read-only tool surface."
assert_tool_surface (some names) policy =
    let stray = find? (λ name. not (names_tool agent_runtime_tool_names name)) names in
    throw_if (is_given stray) (
      string_append "Agent runtime tool surface contains unregistered tool: "
        (string_append (coalesce stray "") "."))
    >> throw_if (is_given (unavailable names policy)) (
        string_append "Agent runtime policy references unavailable tool: "
          (string_append (tool_or_none (unavailable names policy)) "."))

unfoldable pub parse_runtime : World → SelectedAgentRuntimeConfig → Act (Unit {0})
parse_runtime world runtime =
    throw_if (not (runtime_schema runtime)) world.schema_message
    >> throw_if
        (world.contains_sensitive_text runtime.auth_ref
          || world.contains_sensitive_text runtime.provider
          || world.contains_sensitive_text runtime.model)
        "Agent runtime selection contains sensitive auth/provider/model text."

unfoldable pub assert_no_core_writes : AgentDraftOutput → Act (Unit {0})
assert_no_core_writes draft =
    throw_if (not (draft.truth_status == draft_truth_status))
      "Agent draft must not be promoted to Core truth."
    >> throw_if (not (nat_beq draft.requested_core_writes 0))
        "Agent draft requested deterministic Core writes."
