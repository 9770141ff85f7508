-- ===== src/Agent/Sidecar/Turns.antt =====
-- `runAgentAttempt` of src/agent/agent-sidecar.ts.
use data_dyna.Base.{
  String, some, List, [], ◌∷◌, map, true, not, string_eq, length, coalesce, ok, thrown,
  if◌then◌else◌,
}
use data_dyna.Base.Int.{pos}
use data_dyna.Contract.{Fields, num, str, arr, end, field}
use data_dyna.Agent.Run
use data_dyna.Agent.Run.{
  AgentRun, AgentRunStatus, AgentRuntimeMode, pi_sdk_adapter, unselected, AgentRunEvent,
  AgentRunEventType, run_started, attempt_loaded, policy_evaluated, runtime_selected,
  harness_invoked, harness_transcript_event, run_failed, AgentRunAuditStore, AgentDraftOutput,
  AgentRuntimeUsage, draft_schema, run_schema, usage_if_given, nonempty_if_given,
}
use data_dyna.Agent.Sidecar.{
  redact_text, elapsed_ms, tool_text, status_text, PreparedAgentAttempt,
  AgentHarnessTranscriptEvent, transcript_kind_text, AgentHarnessTurnResult, Turn, returns, fails,
  calls, World, RunAgentAttemptInput, Act, ◌>>=◌, ◌>>◌, give, throw, throw_if, lift, caught,
  resumed, told,
}
use data_dyna.Agent.Sidecar.Tools.{tick, append_event, guarded_tool_call}
use data_dyna.Agent.Sidecar.Attempt.{
  attempt_schema, transcript_schema, base_audit_run, text_items, tool_or_none, usage_field,
  assert_prepared_attempt_consumable, parse_prompt, parse_and_check_policy, assert_tool_surface,
  parse_runtime, assert_no_core_writes,
}

-- `AgentRunSchema.parse` and the two writes of a run to the audit store.
unfoldable pub parse_run : World → AgentRun → Act AgentRun
parse_run world run = if run_schema run then give run else throw world.schema_message

unfoldable pub append_run : World → AgentRun → Act (Unit {0})
append_run world run s =
    let (store', kept) = Run.append_run s.store run in
    (record s { store = store' }, if run_schema run then ok tt else thrown world.schema_message)

unfoldable pub replace_run : World → AgentRun → Act (Unit {0})
replace_run world run s =
    let (store', kept) = Run.replace_run s.store run in
    (record s { store = store' }, if run_schema run then ok tt else thrown world.schema_message)

module _ (world : World) (input : RunAgentAttemptInput) where
  abbrev pub attempt : PreparedAgentAttempt
  attempt = input.prepared_attempt

  -- The harness at work.
  unfoldable pub play : Turn → Act AgentHarnessTurnResult
  play (returns result) s = (s, ok result)
  play (fails message) s = (s, thrown message)
  play (calls tool json next) s =
      resumed (λ o. play (next o)) (guarded_tool_call world attempt input.policy tool json s)

  unfoldable pub append_now : AgentRunEventType → Fields → Act (Unit {0})
  append_now event_type metadata =
      tick world >>= λ at. append_event world attempt true event_type at metadata

  unfoldable pub append_transcript : List AgentHarnessTranscriptEvent → Act (Unit {0})
  append_transcript [] s = (s, ok tt)
  append_transcript (e ∷ es) s =
      (lift (told (world.on_transcript_event e))
          >> (append_now harness_transcript_event (
                field "type" (str (transcript_kind_text e.type)) (
                  field "toolName" (str (tool_or_none e.tool_name))
                    (field "summary" (str (redact_text world e.summary)) end)))
              >> append_transcript es))
        s

  -- What comes before the harness.
  unfoldable pub prepare_turn : (started_at : String) → Act (Unit {0})
  prepare_turn started_at =
      throw_if (not input.has_callbacks) "Agent runtime requires audit and transcript callbacks."
      >> (append_event world attempt true run_started started_at (
            field "attemptId" (str attempt.attempt_id)
              (field "status" (str (status_text attempt.status)) end))
          >> (assert_prepared_attempt_consumable attempt
              >> (append_now attempt_loaded (
                    field "contextSeedHash" (str (coalesce attempt.context_seed_hash "missing"))
                      (field "freshnessRefCount" (num (pos attempt.freshness_ref_count)) end))
                  >> (parse_prompt world input.prompt
                      >> (parse_and_check_policy world input.policy attempt
                          >> (assert_tool_surface input.exposed_functions input.policy
                              >> (append_now policy_evaluated (
                                    field "policyVersion" (str "agent-runtime-policy.v1") (
                                      field "toolCatalogVersion"
                                        (str input.policy.tool_catalog_version)
                                        (field "mutationPolicy" (str "no_core_or_business_mutation")
                                          (field "allowedToolNames"
                                            (arr (
                                              text_items
                                                (map tool_text input.policy.allowed_tool_names)))
                                            (field "deniedCapabilities"
                                              (arr (text_items attempt.forbidden_capabilities))
                                              end)))))
                                  >> (parse_runtime world input.runtime
                                      >> (throw_if (not input.has_harness)
                                            "Agent runtime selection is missing the harness turn callback."
                                          >> (append_now runtime_selected (
                                                field "provider" (str input.runtime.provider) (
                                                  field "model" (str input.runtime.model) (
                                                    field "profile" (str input.runtime.profile) (
                                                      field "runtimeMode" (str "pi_sdk_adapter") (
                                                        field "authRef" (str input.runtime.auth_ref)
                                                          end)))))
                                              >> append_now harness_invoked (
                                                  field "runtimeMode" (str "pi_sdk_adapter") (
                                                    field "toolCount"
                                                      (num (
                                                        pos
                                                          (length input.policy.allowed_tool_names)))
                                                      (field "toolPolicyVersion"
                                                        (str "agent-runtime-policy.v1")
                                                        (field "mutationPolicy"
                                                          (str "no_core_or_business_mutation")
                                                          end))))))))))))))

  abbrev pub captured_run : AgentRun → (completed_at : String) → AgentHarnessTurnResult → AgentRun
  captured_run base completed_at result = record base {
    status = AgentRunStatus.draft_captured;
    completed_at = some completed_at;
    runtime_usage = result.runtime_usage;
    draft = some result.draft;
  }

  -- What comes after the harness.
  unfoldable pub capture_draft :
      AgentRun → (started_at : String) → AgentHarnessTurnResult → Act AgentRun
  capture_draft base started_at result =
      throw_if (not (usage_if_given result.runtime_usage)) world.schema_message
      >> (throw_if (not (transcript_schema result.transcript)) world.schema_message
          >> (append_transcript result.transcript
              >> (throw_if (not (draft_schema result.draft)) world.schema_message
                  >> (assert_no_core_writes result.draft
                      >> (tick world >>= λ completed_at.
                          parse_run world (captured_run base completed_at result) >>= λ run.
                          append_event world attempt true AgentRunEventType.draft_captured
                            completed_at
                            (field "truthStatus" (str result.draft.truth_status) (
                              field "requestedCoreWriteCount"
                                (num (pos result.draft.requested_core_writes))
                                (field "evidenceRefCount"
                                  (num (pos (length result.draft.evidence_refs)))
                                  (field "latencyMs"
                                    (num (pos (elapsed_ms world started_at completed_at)))
                                    (usage_field result.runtime_usage)))))
                          >> (replace_run world run >> give run))))))

  abbrev pub failed_run : AgentRun → (failed_at message : String) → AgentRun
  failed_run base failed_at message = record base {
    status = AgentRunStatus.failed;
    completed_at = some failed_at;
    error_message = some (redact_text world message);
  }

  -- The `catch`. The callbacks are told only if they were there.
  unfoldable pub fail_run : AgentRun → (started_at message : String) → Act AgentRun
  fail_run base started_at message = tick world >>= λ failed_at.
      parse_run world (failed_run base failed_at message) >>= λ run.
      append_event world attempt input.has_callbacks run_failed failed_at (
        field "errorMessage" (str (redact_text world message))
          (field "latencyMs" (num (pos (elapsed_ms world started_at failed_at))) end))
      >> (replace_run world run >> give run)

  unfoldable pub try_run : AgentRun → (started_at : String) → Act AgentRun
  try_run base started_at =
      prepare_turn started_at
      >> (play world.run_turn >>= λ result. capture_draft base started_at result)

  unfoldable pub run_agent_attempt : Act AgentRun
  run_agent_attempt =
      throw_if (not (attempt_schema attempt)) world.schema_message
      >> (tick world >>= λ started_at. parse_run world (base_audit_run input started_at) >>= λ base.
          append_run world base
          >> (λ s. caught (fail_run base started_at) (try_run base started_at s)))
