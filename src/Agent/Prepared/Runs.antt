-- ===== src/Agent/Prepared/Runs.antt =====
-- A run of src/agent/agent-sidecar.ts on what src/agent/prepared-attempt.ts has prepared.
use data_dyna.Base.{
  Bool, ◌||◌, String, Option, none, some, List, [], ◌∷◌, map, true, false, not, ◌&&◌, ◌==◌,
  string_eq, ◌≡◌, refl, sym, subst, inl, inr, Bool-cases, All, any, ok, length,
}
use data_dyna.Agent.Run.{AgentRunAuditStore}
use data_dyna.Agent.Sidecar.{
  AgentReadOnlyToolName, tool_text, names_tool, World, RunAgentAttemptInput, Audit,
}
use data_dyna.Agent.Sidecar
use data_dyna.Agent.Sidecar.Turns.{run_agent_attempt}
use data_dyna.Agent.Sidecar.Scope.{InScope, run_agent_attempt-InScope}
use data_dyna.Agent.Prepared.{
  Platform, PrepareAgentAttemptInput, PreparedAgentAttempt, AgentContextSeed,
  AgentReadOnlyToolDescriptor,
}
use data_dyna.Agent.Prepared.Policy.{is_unsafe}
use data_dyna.Agent.Prepared.Schemas.{catalog_of}
use data_dyna.Agent.Prepared.Prepare.{prepare_agent_attempt}
use data_dyna.Agent.Prepared.Ready.{prepare_agent_attempt-Ready}

abbrev refs_of : Option AgentContextSeed → Option (List String)
refs_of none = none
refs_of (some seed) = some seed.evidence_refs

-- What a run reads of an attempt.
abbrev pub consumed : PreparedAgentAttempt → Sidecar.PreparedAgentAttempt
consumed a = record {
  attempt_id = a.attempt_id;
  agent_run_id = a.agent_run_id;
  session_id = a.session_id;
  brand_id = a.brand_id;
  store_id = a.store_id;
  opportunity_gap_id = a.opportunity_gap_id;
  status = a.status;
  tool_catalog_version = "agent-read-tools.v1";
  max_tool_result_bytes = a.context_budget.max_tool_result_bytes;
  allowed_read_capabilities = a.allowed_read_capabilities;
  forbidden_capabilities = a.forbidden_capabilities;
  freshness_ref_count = length a.worker_freshness_refs;
  context_seed = refs_of a.context_seed;
  context_seed_hash = a.context_seed_hash;
}

abbrev only_reads : AgentReadOnlyToolDescriptor → Bool
only_reads d = d.capability == "read_context" && d.mutation_policy == "no_core_or_business_mutation"

safe-only_reads : (d : AgentReadOnlyToolDescriptor) → is_unsafe d ≡ false → only_reads d ≡ true
safe-only_reads d h =
    both (d.mutation_policy == "no_core_or_business_mutation") (d.capability == "read_context") h
  where
    both : (p c : Bool) → not p || not c ≡ false → c && p ≡ true
    both true true h = refl
    both true false h = cc
    both false c h = cc

-- A tool that the catalog describes as one that reads and mutates nothing.
abbrev pub ReadOnly : List AgentReadOnlyToolDescriptor → AgentReadOnlyToolName → Type 0
ReadOnly catalog tool = any (λ d. tool_text d.name == tool_text tool && only_reads d) catalog ≡ true

names_tool-ReadOnly :
    (catalog : List AgentReadOnlyToolDescriptor) (tool : AgentReadOnlyToolName)
    → All (λ d. is_unsafe d ≡ false) catalog
    → names_tool (map (λ d. d.name) catalog) (tool_text tool) ≡ true
    → ReadOnly catalog tool
names_tool-ReadOnly [] tool safe h = h
names_tool-ReadOnly (d ∷ ds) tool (first, safe) h =
    elim (Bool-cases (tool_text d.name == tool_text tool)) [
      | inl same ↦ rw same (rw (safe-only_reads d first) refl)
      | inr other ↦ rw other (names_tool-ReadOnly ds tool safe (rw other at h))
    ]

module _ (platform : Platform) (preparation : PrepareAgentAttemptInput) where
  All-ReadOnly :
      (world : World) (input : RunAgentAttemptInput) (tools : List AgentReadOnlyToolName)
      → All (λ d. is_unsafe d ≡ false) (catalog_of preparation)
      → input.prepared_attempt.allowed_read_capabilities
        ≡ map (λ d. d.name) (catalog_of preparation)
      → All (InScope world input) tools
      → All (ReadOnly (catalog_of preparation)) tools
  All-ReadOnly world input [] safe same h = tt
  All-ReadOnly world input (tool ∷ tools) safe same ((allowed, read), h) = (
    names_tool-ReadOnly (catalog_of preparation) tool safe
        (subst (λ caps. names_tool caps (tool_text tool) ≡ true) same read),
    All-ReadOnly world input tools safe same h,
  )

  -- Every raw tool that a run calls is described, in the catalog from which its attempt was
  -- prepared, as one that reads context and mutates nothing, if preparing gave the attempt a
  -- context seed, whatever the harness, the policy of the run, the callbacks and the tools do.
  pub run_agent_attempt-ReadOnly :
      (attempt : PreparedAgentAttempt) (seed : AgentContextSeed) (world : World)
      (input : RunAgentAttemptInput) (store : AgentRunAuditStore)
      → prepare_agent_attempt platform preparation ≡ ok attempt
      → attempt.context_seed ≡ some seed
      → input.prepared_attempt ≡ consumed attempt
      → All
          (ReadOnly (catalog_of preparation))
          (run_agent_attempt world input
            (record { store = store; events = []; ticks = 0; called = [] })).0.called
  run_agent_attempt-ReadOnly attempt seed world input store made seeded same =
      let ready = prepare_agent_attempt-Ready platform preparation attempt seed made seeded in
      All-ReadOnly world input _ ready.safe_tools
        (subst (λ p. p.allowed_read_capabilities ≡ map (λ d. d.name) (catalog_of preparation))
          (sym same) ready.scope)
        (run_agent_attempt-InScope world input store)
