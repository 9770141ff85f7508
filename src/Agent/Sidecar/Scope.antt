-- ===== src/Agent/Sidecar/Scope.antt =====
-- Which raw tools a run of src/agent/agent-sidecar.ts calls.
use data_dyna.Base.{
  String, List, [], ◌∷◌, Bool, true, false, not, ◌≡◌, sym, refl, subst, inl, inr, Bool-cases, All,
  All-append, find?, Outcome, ok, thrown, eq_iff, ◌==◌, string_eq,
}
use data_dyna.Contract.{Json}
use data_dyna.Agent.Run.{AgentRun, AgentRunAuditStore}
use data_dyna.Agent.Sidecar.{
  AgentReadOnlyToolName, tool_text, names_tool, Turn, returns, fails, calls, World,
  RunAgentAttemptInput, Audit, Act, continue_with, ◌>>=◌, ◌>>◌, throw_if, caught, resumed,
}
use data_dyna.Agent.Sidecar.Tools.{takes_input, call_prepared_tool, may_call, guarded_tool_call}
use data_dyna.Agent.Sidecar.Attempt.{parse_and_check_policy, out_of_scope, is_given}
use data_dyna.Agent.Sidecar.Turns.{
  play, prepare_turn, capture_draft, fail_run, try_run, run_agent_attempt,
}
use data_dyna.Agent.Sidecar.Silence.{
  Silent, Silent-throw_if, Silent-tick, Silent-parse_run, Silent-append_run, Silent-append_event,
  Silent-deny_tool, Silent-hand_over, Silent-prepare_turn, Silent-capture_draft, Silent-fail_run,
}

-- What holds wherever a step has returned.
record Grants (Q : Type 0) {A : Type 0} (step : Act A) : Type 0 where
  granted : (s : Audit) (a : A) → (step s).1 ≡ ok a → Q

module _ {Q B : Type 0} (step : Act (Unit {0})) (next : Act B) where
  Grants-left : Grants Q step → Grants Q (step >> next)
  unfolding ◌>>◌ ◌>>=◌
  Grants-left g = record { granted = λ s b e. from_first (step s) (g.granted s) b e }
    where
      from_first :
          (r : Audit × Outcome String (Unit {0}))
          → ((a : Unit {0}) → r.1 ≡ ok a → Q)
          → (b : B) → (continue_with (λ _. next) r).1 ≡ ok b
          → Q
      from_first (s, ok a) h b e = h a refl
      from_first (s, thrown x) h b e = cc

  Grants-right : Grants Q next → Grants Q (step >> next)
  unfolding ◌>>◌ ◌>>=◌
  Grants-right g = record { granted = λ s b e. from_second (step s) b e }
    where
      from_second :
          (r : Audit × Outcome String (Unit {0})) (b : B)
          → (continue_with (λ _. next) r).1 ≡ ok b
          → Q
      from_second (s, ok a) b e = g.granted s b e
      from_second (s, thrown x) b e = cc

Grants-throw_if : (b : Bool) (message : String) → Grants (b ≡ false) (throw_if b message)
unfolding throw_if
Grants-throw_if true message = record { granted = λ s a e. cc }
Grants-throw_if false message = record { granted = λ s a e. refl }

module _ (world : World) (input : RunAgentAttemptInput) where
  abbrev Scoped : Type 0
  Scoped = is_given (out_of_scope input.policy input.prepared_attempt) ≡ false

  -- A run that has been prepared has had its policy checked against the attempt.
  Grants-prepare_turn : (started_at : String) → Grants Scoped (prepare_turn world input started_at)
  unfolding prepare_turn parse_and_check_policy
  Grants-prepare_turn started_at = Grants-right _ _ (
      Grants-right _ _ (
        Grants-right _ _ (
          Grants-right _ _ (
            Grants-right _ _
              (Grants-left _ _ (Grants-right _ _ (Grants-right _ _ (Grants-throw_if _ _))))))))

scope_of :
    (caps tools : List AgentReadOnlyToolName) (name : String)
    → is_given (find? (λ tool. not (names_tool caps (tool_text tool))) tools) ≡ false
    → names_tool tools name ≡ true
    → names_tool caps name ≡ true
scope_of caps [] name h k = cc
scope_of caps (tool ∷ tools) name h k = elim (Bool-cases (names_tool caps (tool_text tool))) [
  | inr outside ↦ cc (rw outside at h)
  | inl inside ↦ elim (Bool-cases (tool_text tool == name)) [
    | inl same ↦
        subst (λ t. names_tool caps t ≡ true) ((eq_iff (tool_text tool) name).0 same) inside
    | inr other ↦ scope_of caps tools name (rw inside at h) (rw other at k)
  ]
]

module _ (world : World) (input : RunAgentAttemptInput) where
  -- A tool that the policy allows and that the attempt may read.
  abbrev pub InScope : AgentReadOnlyToolName → Type 0
  InScope tool =
      (names_tool input.policy.allowed_tool_names (tool_text tool) ≡ true)
      × (names_tool input.prepared_attempt.allowed_read_capabilities (tool_text tool) ≡ true)

  record Keeps {A : Type 0} (step : Act A) : Type 0 where
    kept : (s : Audit) → All InScope s.called → All InScope (step s).0.called

  Keeps-Silent : {A : Type 0} {step : Act A} → Silent step → Keeps step
  Keeps-Silent q = record { kept = λ s h. subst (All InScope) (sym (q.quiet s)) h }

  continue_with-InScope :
      {A B : Type 0} (next : A → Act B) (r : Audit × Outcome String A)
      → ((a : A) → Keeps (next a))
      → All InScope r.0.called
      → All InScope (continue_with next r).0.called
  continue_with-InScope next (s, ok a) k h = (k a).kept s h
  continue_with-InScope next (s, thrown x) k h = h

  Keeps-bind :
      {A B : Type 0} {step : Act A} {next : A → Act B}
      → Keeps step
      → ((a : A) → Keeps (next a))
      → Keeps (step >>= next)
  unfolding ◌>>=◌
  Keeps-bind {step} {next} h k = record {
    kept = λ s all. continue_with-InScope next (step s) k (h.kept s all);
  }

  Keeps-then :
      {B : Type 0} {step : Act (Unit {0})} {next : Act B}
      → Keeps step
      → Keeps next
      → Keeps (step >> next)
  unfolding ◌>>◌
  Keeps-then h k = Keeps-bind h (λ _. k)

  Keeps-call_prepared_tool :
      (tool : AgentReadOnlyToolName) (json : Json)
      → InScope tool
      → Keeps (call_prepared_tool world input.prepared_attempt tool json)
  unfolding call_prepared_tool
  Keeps-call_prepared_tool tool json allowed = record {
    kept = λ s h. elim (Bool-cases (takes_input world input.prepared_attempt tool json)) [
      | inl taken ↦ rw taken (All-append InScope s.called (tool ∷ []) h (allowed, tt))
      | inr refused ↦ rw refused h
    ];
  }

  module _ (in_scope : Scoped world input) where
    Keeps-guarded_tool_call :
        (tool : AgentReadOnlyToolName) (json : Json)
        → Keeps (guarded_tool_call world input.prepared_attempt input.policy tool json)
    unfolding guarded_tool_call
    Keeps-guarded_tool_call tool json =
        elim (Bool-cases (may_call world input.prepared_attempt input.policy tool)) [
          | inr outside ↦ rw outside (Keeps-Silent (Silent-deny_tool world _ input.policy tool))
          | inl inside ↦
              let allowed : InScope tool = (
                inside,
                scope_of input.prepared_attempt.allowed_read_capabilities
                    input.policy.allowed_tool_names (tool_text tool) in_scope inside,
              ) in
              rw inside (
                Keeps-bind (Keeps-Silent (Silent-tick world)) λ at.
                  Keeps-then (Keeps-Silent (Silent-append_event world _ true _ at _)) (
                    Keeps-bind (Keeps-call_prepared_tool tool json allowed)
                      λ raw. Keeps-Silent (Silent-hand_over world _ input.policy tool _)))
        ]

    resumed-InScope :
        {A B : Type 0} (next : Outcome String A → Act B) (r : Audit × Outcome String A)
        → ((o : Outcome String A) → Keeps (next o))
        → All InScope r.0.called
        → All InScope (resumed next r).0.called
    resumed-InScope next (s, o) k h = (k o).kept s h

    Keeps-play : (turn : Turn) → Keeps (play world input turn)
    unfolding play
    Keeps-play (returns result) = record { kept = λ s h. h }
    Keeps-play (fails message) = record { kept = λ s h. h }
    Keeps-play (calls tool json next) = record {
      kept = λ s h.
          resumed-InScope _
            (guarded_tool_call world input.prepared_attempt input.policy tool json s)
            (λ o. Keeps-play (next o)) ((Keeps-guarded_tool_call tool json).kept s h);
    }

  try_run-InScope :
      (base : AgentRun) (started_at : String) (r : Audit × Outcome String (Unit {0}))
      → ((a : Unit {0}) → r.1 ≡ ok a → Scoped world input)
      → All InScope r.0.called
      → All InScope
          (continue_with
            (λ _. play world input world.run_turn >>= λ result.
              capture_draft world input base started_at result)
            r).0.called
  try_run-InScope base started_at (s, ok a) h k =
      (Keeps-bind (Keeps-play (h a refl) world.run_turn)
          λ result. Keeps-Silent (Silent-capture_draft world input base started_at result)).kept
        s k
  try_run-InScope base started_at (s, thrown x) h k = k

  Keeps-try_run :
      (base : AgentRun) (started_at : String) → Keeps (try_run world input base started_at)
  unfolding try_run ◌>>◌ ◌>>=◌
  Keeps-try_run base started_at = record {
    kept = λ s h.
        try_run-InScope base started_at (prepare_turn world input started_at s)
          ((Grants-prepare_turn world input started_at).granted s)
          ((Keeps-Silent (Silent-prepare_turn world input started_at)).kept s h);
  }

  caught-InScope :
      {A : Type 0} (handler : String → Act A) (r : Audit × Outcome String A)
      → ((message : String) → Silent (handler message))
      → All InScope r.0.called
      → All InScope (caught handler r).0.called
  caught-InScope handler (s, ok a) h k = k
  caught-InScope handler (s, thrown x) h k = (Keeps-Silent (h x)).kept s k

  Keeps-caught :
      (base : AgentRun) (started_at : String)
      → Keeps (λ s.
        caught (fail_run world input base started_at) (try_run world input base started_at s))
  Keeps-caught base started_at = record {
    kept = λ s h.
        caught-InScope (fail_run world input base started_at) _
          (λ message. Silent-fail_run world input base started_at message)
          ((Keeps-try_run base started_at).kept s h);
  }

  Keeps-run_agent_attempt : Keeps (run_agent_attempt world input)
  unfolding run_agent_attempt
  Keeps-run_agent_attempt = Keeps-then (Keeps-Silent (Silent-throw_if _ _)) (
      Keeps-bind (Keeps-Silent (Silent-tick world)) λ started_at.
        Keeps-bind (Keeps-Silent (Silent-parse_run world _)) λ base.
          Keeps-then (Keeps-Silent (Silent-append_run world base)) (Keeps-caught base started_at))

  -- Whatever the harness, the callbacks and the raw tools do, a run of an attempt calls only raw
  -- tools that the policy allows and that the attempt may read, whether it returns or throws.
  pub run_agent_attempt-InScope :
      (store : AgentRunAuditStore)
      → All InScope
          (run_agent_attempt world input
            (record { store = store; events = []; ticks = 0; called = [] })).0.called
  run_agent_attempt-InScope store = Keeps-run_agent_attempt.kept _ tt
