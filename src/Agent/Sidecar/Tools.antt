-- ===== src/Agent/Sidecar/Tools.antt =====
-- The audited tool boundary of src/agent/agent-sidecar.ts.
use data_dyna.Base.{
  ℕ, ◌+◌, String, Option, none, some, List, [], ◌∷◌, ◌++◌, Bool, true, false, not, string_eq,
  length, ltb, ok, thrown, if◌then◌else◌,
}
use data_dyna.Base.Int.{pos}
use Prim.Native.String.{◌++◌ as string_append}
use data_dyna.Contract.{
  Json, Items, Fields, null, bool, num, str, arr, obj, nil, cons, end, field, get_field,
}
use data_dyna.Agent.{nonempty, includes}
use data_dyna.Agent.Run.{
  AgentRunEvent, AgentRunEventType, tool_call_attempt, tool_call_denied, tool_result_sanitized,
  AgentRunAuditStore, AuditFailure, event_schema,
}
use data_dyna.Agent.Run
use data_dyna.Agent.Sidecar.{
  redact_text, AgentReadOnlyToolName, read_worker_freshness, read_projection_summary,
  read_snapshot_summary, read_benchmark_opportunity_gaps, read_evidence_records,
  read_dead_letter_diagnosis, tool_text, names_tool, PreparedAgentAttempt, AgentRuntimePolicy,
  World, Act, ◌>>=◌, ◌>>◌, give, throw, told,
}

module _ (redact : String → String) where
  unfoldable mutual
    pub sanitize_json_value : Json → Json
    sanitize_json_value null = null
    sanitize_json_value (bool b) = bool b
    sanitize_json_value (num n) = num n
    sanitize_json_value (str s) = str (redact s)
    sanitize_json_value (arr items) = arr (sanitize_values items)
    sanitize_json_value (obj fields) = obj (sanitize_entries fields)

    pub sanitize_values : Items → Items
    sanitize_values nil = nil
    sanitize_values (cons value items) = cons (sanitize_json_value value) (sanitize_values items)

    pub sanitize_entries : Fields → Fields
    sanitize_entries end = end
    sanitize_entries (field key value fields) =
        field key (sanitize_json_value value) (sanitize_entries fields)

unfoldable pub tick : World → Act String
tick world s = (record s { ticks = s.ticks + 1 }, ok (world.now s.ticks))

unfoldable pub audit_event :
    World
    → PreparedAgentAttempt
    → ℕ
    → AgentRunEventType
    → (occurred_at : String) → Fields
    → AgentRunEvent
audit_event world attempt count event_type occurred_at metadata = record {
  agent_run_event_id =
      string_append "agent_run_event:"
        (string_append attempt.agent_run_id (string_append ":" (world.decimal (count + 1))));
  agent_run_id = attempt.agent_run_id;
  session_id = attempt.session_id;
  store_id = attempt.store_id;
  opportunity_gap_id = attempt.opportunity_gap_id;
  event_type = event_type;
  occurred_at = occurred_at;
  metadata = metadata;
}

module _ (world : World) (attempt : PreparedAgentAttempt) where
  -- The event is parsed before anything is pushed, and the store parses it once more.
  unfoldable pub append_event :
      Bool → AgentRunEventType → (occurred_at : String) → Fields → Act (Unit {0})
  append_event with_callbacks event_type occurred_at metadata s =
      let event = audit_event world attempt (length s.events) event_type occurred_at metadata in
      let (store', kept) = Run.append_event s.store event in
      let s' = record s { store = store'; events = s.events ++ event ∷ [] } in
      if event_schema event
      then (s', if with_callbacks then told (world.on_audit_event event) else ok tt)
      else (s, thrown world.schema_message)

  abbrev text_of : Option Json → Option String
  text_of (some (str t)) = some t
  text_of _ = none

  abbrev nonempty_text : Option String → Bool
  nonempty_text none = false
  nonempty_text (some t) = nonempty t

  abbrev one_of : List String → Option String → Bool
  one_of allowed none = false
  one_of allowed (some t) = includes allowed t

  abbrev property : String → Json → Option String
  property key (obj fields) = text_of (get_field key fields)
  property key _ = none

  -- The schemas of the inputs.
  unfoldable pub takes_input : AgentReadOnlyToolName → Json → Bool
  takes_input read_worker_freshness input =
      one_of ("projection" ∷ "snapshot" ∷ "benchmark" ∷ "evidence" ∷ [])
        (property "workerKind" input)
  takes_input read_dead_letter_diagnosis input = true
  takes_input read_projection_summary input = nonempty_text (property "committedJobId" input)
  takes_input read_snapshot_summary input = nonempty_text (property "committedJobId" input)
  takes_input read_benchmark_opportunity_gaps input =
      nonempty_text (property "committedJobId" input)
  takes_input read_evidence_records input = nonempty_text (property "committedJobId" input)

  unfoldable pub call_prepared_tool : AgentReadOnlyToolName → Json → Act Json
  unfolding takes_input
  call_prepared_tool tool input s =
      if takes_input tool input
      then (record s { called = s.called ++ tool ∷ [] }, world.call_tool tool input)
      else (s, thrown world.schema_message)

  module _ (policy : AgentRuntimePolicy) where
    abbrev pub policy_fields : Fields
    policy_fields =
        field "policyVersion" (str "agent-runtime-policy.v1")
          (field "mutationPolicy" (str "no_core_or_business_mutation") end)

    abbrev pub may_call : AgentReadOnlyToolName → Bool
    may_call tool = names_tool policy.allowed_tool_names (tool_text tool)

    unfoldable pub deny_tool : AgentReadOnlyToolName → Act Json
    deny_tool tool = do
      at ← tick world
      append_event true tool_call_denied at (
          field "toolName" (str (tool_text tool))
            (field "reason" (str "tool_not_allowed_by_runtime_policy") policy_fields))
      throw (
          string_append "Agent runtime policy denied tool call before execution: "
            (string_append (tool_text tool) "."))

    unfoldable pub hand_over : AgentReadOnlyToolName → Json → Act Json
    hand_over tool sanitized =
        let bytes = world.byte_length sanitized in
        if ltb attempt.max_tool_result_bytes bytes
        then (do
          at ← tick world
          append_event true tool_call_denied at (
              field "toolName" (str (tool_text tool)) (
                field "reason" (str "sanitized_tool_result_exceeds_budget") (
                  field "resultBytes" (num (pos bytes)) (
                    field "maxToolResultBytes" (num (pos attempt.max_tool_result_bytes))
                      (field "policyVersion" (str "agent-runtime-policy.v1") end)))))
          throw (
              string_append "Agent runtime tool result exceeded sanitized result budget: "
                (string_append (tool_text tool) ".")))
        else (do
          at ← tick world
          append_event true tool_result_sanitized at (
              field "toolName" (str (tool_text tool))
                (field "resultBytes" (num (pos bytes)) policy_fields))
          give sanitized)

    unfoldable pub guarded_tool_call : AgentReadOnlyToolName → Json → Act Json
    guarded_tool_call tool input = if not (may_call tool) then deny_tool tool else (do
      at ← tick world
      append_event true tool_call_attempt at (field "toolName" (str (tool_text tool)) policy_fields)
      raw ← call_prepared_tool tool input
      hand_over tool (sanitize_json_value (redact_text world) raw))
