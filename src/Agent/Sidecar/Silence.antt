-- ===== src/Agent/Sidecar/Silence.antt =====
-- The steps of a run in src/agent/agent-sidecar.ts that call no raw tool.
use data_dyna.Base.{
  String, Option, none, some, List, [], ◌∷◌, Bool, true, false, ◌≡◌, ◌∙◌, refl, inl, inr, arith,
  Bool-cases, Outcome, ok, thrown, ltb,
}
use data_dyna.Contract.{Json, Fields}
use data_dyna.Agent.Run.{AgentRun, AgentRunEventType, run_schema}
use data_dyna.Agent.Sidecar.{
  AgentReadOnlyToolName, PreparedAgentAttempt, AgentRuntimePolicy, AgentHarnessTranscriptEvent,
  AgentHarnessTurnResult, World, RunAgentAttemptInput, Audit, Act, continue_with, ◌>>=◌, ◌>>◌, give,
  throw, throw_if, lift,
}
use data_dyna.Agent.Sidecar.Tools.{tick, append_event, deny_tool, hand_over}
use data_dyna.Agent.Sidecar.Attempt.{
  assert_prepared_attempt_consumable, parse_prompt, parse_and_check_policy, assert_tool_surface,
  parse_runtime, assert_no_core_writes,
}
use data_dyna.Agent.Sidecar.Turns.{
  parse_run, append_run, replace_run, append_now, append_transcript, prepare_turn, capture_draft,
  fail_run,
}

-- A step that calls no raw tool.
pub record Silent {A : Type 0} (step : Act A) : Type 0 where
  pub quiet : (s : Audit) → (step s).0.called ≡ s.called

continue_with-called :
    {A B : Type 0} (next : A → Act B) (r : Audit × Outcome String A)
    → ((a : A) → Silent (next a))
    → (continue_with next r).0.called ≡ r.0.called
continue_with-called next (s, ok a) h = (h a).quiet s
continue_with-called next (s, thrown x) h = refl

pub Silent-bind :
    {A B : Type 0} {step : Act A} {next : A → Act B}
    → Silent step
    → ((a : A) → Silent (next a))
    → Silent (step >>= next)
unfolding ◌>>=◌
Silent-bind {step} {next} h k = record {
  quiet = λ s. continue_with-called next (step s) k ∙ h.quiet s;
}

pub Silent-then :
    {B : Type 0} {step : Act (Unit {0})} {next : Act B}
    → Silent step
    → Silent next
    → Silent (step >> next)
unfolding ◌>>◌
Silent-then h k = Silent-bind h (λ _. k)

pub Silent-throw_if : (b : Bool) (message : String) → Silent (throw_if b message)
unfolding throw_if
Silent-throw_if true message = record { quiet = λ s. refl }
Silent-throw_if false message = record { quiet = λ s. refl }

pub Silent-throw : {A : Type 0} (message : String) → Silent (throw {A = A} message)
unfolding throw
Silent-throw message = record { quiet = λ s. refl }

pub Silent-give : {A : Type 0} (a : A) → Silent (give a)
unfolding give
Silent-give a = record { quiet = λ s. refl }

pub Silent-lift : {A : Type 0} (o : Outcome String A) → Silent (lift o)
unfolding lift
Silent-lift o = record { quiet = λ s. refl }

module _ (world : World) where
  pub Silent-tick : Silent (tick world)
  unfolding tick
  Silent-tick = record { quiet = λ s. refl }

  pub Silent-parse_run : (run : AgentRun) → Silent (parse_run world run)
  unfolding parse_run
  Silent-parse_run run = elim (Bool-cases (run_schema run)) [
    | inl taken ↦ rw taken (Silent-give run)
    | inr refused ↦ rw refused (Silent-throw world.schema_message)
  ]

  pub Silent-append_run : (run : AgentRun) → Silent (append_run world run)
  unfolding append_run
  Silent-append_run run = record { quiet = λ s. refl }

  pub Silent-replace_run : (run : AgentRun) → Silent (replace_run world run)
  unfolding replace_run
  Silent-replace_run run = record { quiet = λ s. refl }

  module _ (prepared : PreparedAgentAttempt) where
    pub Silent-append_event :
        (told_too : Bool) (event_type : AgentRunEventType) (at : String) (metadata : Fields)
        → Silent (append_event world prepared told_too event_type at metadata)
    unfolding append_event
    Silent-append_event told_too event_type at metadata = record { quiet = λ s. ground arith }

    module _ (policy : AgentRuntimePolicy) where
      pub Silent-deny_tool :
          (tool : AgentReadOnlyToolName) → Silent (deny_tool world prepared policy tool)
      unfolding deny_tool
      Silent-deny_tool tool =
          Silent-bind Silent-tick
            λ at. Silent-then (Silent-append_event true _ at _) (Silent-throw _)

      pub Silent-hand_over :
          (tool : AgentReadOnlyToolName) (value : Json)
          → Silent (hand_over world prepared policy tool value)
      unfolding hand_over
      Silent-hand_over tool value =
          elim (Bool-cases (ltb prepared.max_tool_result_bytes (world.byte_length value))) [
            | inl over ↦ rw over (
                Silent-bind Silent-tick
                  λ at. Silent-then (Silent-append_event true _ at _) (Silent-throw _))
            | inr fits ↦ rw fits (
                Silent-bind Silent-tick
                  λ at. Silent-then (Silent-append_event true _ at _) (Silent-give value))
          ]

  module _ (input : RunAgentAttemptInput) where
    pub Silent-append_now :
        (event_type : AgentRunEventType) (metadata : Fields)
        → Silent (append_now world input event_type metadata)
    unfolding append_now
    Silent-append_now event_type metadata =
        Silent-bind Silent-tick λ at. Silent-append_event _ true event_type at metadata

    pub Silent-assert_tool_surface :
        (names : Option (List String)) (policy : AgentRuntimePolicy)
        → Silent (assert_tool_surface names policy)
    unfolding assert_tool_surface
    Silent-assert_tool_surface none policy = Silent-throw _
    Silent-assert_tool_surface (some names) policy =
        Silent-then (Silent-throw_if _ _) (Silent-throw_if _ _)

    pub Silent-prepare_turn : (started_at : String) → Silent (prepare_turn world input started_at)
    unfolding prepare_turn assert_prepared_attempt_consumable parse_prompt parse_and_check_policy
        parse_runtime
    Silent-prepare_turn started_at =
        search
          (
            Silent-then, Silent-throw_if, Silent-append_event, Silent-append_now,
            Silent-assert_tool_surface,
          )
          depth 24

    Silent-append_transcript :
        (es : List AgentHarnessTranscriptEvent) → Silent (append_transcript world input es)
    unfolding append_transcript
    Silent-append_transcript [] = record { quiet = λ s. refl }
    Silent-append_transcript (e ∷ es) =
        let rest = Silent-append_transcript es in
        let step = Silent-then (Silent-lift _) (Silent-then (Silent-append_now _ _) rest) in
        record { quiet = step.quiet }

    pub Silent-capture_draft :
        (base : AgentRun) (started_at : String) (result : AgentHarnessTurnResult)
        → Silent (capture_draft world input base started_at result)
    unfolding capture_draft assert_no_core_writes
    Silent-capture_draft base started_at result =
        search
          (
            Silent-then, Silent-bind, Silent-throw_if, Silent-append_transcript, Silent-tick,
            Silent-parse_run, Silent-append_event, Silent-replace_run, Silent-give,
          )
          depth 24

    pub Silent-fail_run :
        (base : AgentRun) (started_at message : String)
        → Silent (fail_run world input base started_at message)
    unfolding fail_run
    Silent-fail_run base started_at message =
        search
          (
            Silent-then, Silent-bind, Silent-tick, Silent-parse_run, Silent-append_event,
            Silent-replace_run, Silent-give,
          )
          depth 24
