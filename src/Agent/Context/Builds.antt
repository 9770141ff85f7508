-- ===== src/Agent/Context/Builds.antt =====
-- `AgentContextBundleSchema` and `buildAgentContextBundle` of src/agent/context-bundle.ts.
use data_dyna.Base.{
  all, string_eq, ◌==◌, beq_refl, coalesce, String, Option, List, [], ◌∷◌, ◌++◌, true, ◌≡◌, refl,
  inl, inr, arith, Bool-cases, ok, thrown, if◌then◌else◌,
}
use data_dyna.Base.Table.{any-append}
use data_dyna.Agent.Unique.{includes-unique_sorted, unique_sorted-unique_sorted, same_strings_self}
use data_dyna.Agent.{includes, unique_sorted, Numbers, Sorting, nonempty_texts, all_hold-All}
use data_dyna.Agent.Context.{
  AgentContextBundle, AgentOpportunityGapFact, ContextIssue, plain_rejected, bundle_schema,
  bundle_fields, context_issues, refined_bundle, parse_context, missing_targets,
  required_disallowed_targets, built_bundle, build_agent_context_bundle,
}

module _ {N : Type 0} (sorting : Sorting) where
  refined_bundle_ok :
      (bundle : AgentContextBundle N) (issues : List ContextIssue) {c : AgentContextBundle N}
      → refined_bundle sorting bundle issues ≡ ok c
      → (c ≡ bundle) × (issues ≡ [])
  refined_bundle_ok bundle [] e = (cc, refl)
  refined_bundle_ok bundle (i ∷ is) e = cc

  -- A context that parses is the one given, and has no issues.
  pub parse_context_ok :
      (num : Numbers N) (bundle : AgentContextBundle N) {c : AgentContextBundle N}
      → parse_context sorting num bundle ≡ ok c
      → (c ≡ bundle) × (bundle_schema num bundle ≡ true) × (context_issues sorting bundle ≡ [])
  unfolding parse_context
  parse_context_ok num bundle e = elim (Bool-cases (bundle_schema num bundle)) [
    | inl taken ↦
        let (same, clean) = refined_bundle_ok bundle _ (rw taken at e) in (same, taken, clean)
    | inr rejected ↦ cc (rw rejected at e)
  ]

  pub bundle_refs_nonempty :
      (num : Numbers N) (bundle : AgentContextBundle N)
      → bundle_schema num bundle ≡ true
      → nonempty_texts bundle.evidence_refs ≡ true
  unfolding bundle_schema
  bundle_refs_nonempty num bundle taken =
      let (_, (_, (_, (_, (_, (_, fields)))))) = all_hold-All (bundle_fields num bundle) taken in
      let (_, (_, (_, (_, (_, (refs, _)))))) = fields in refs

  required_targets_named :
      (targets : List String) (bundle : AgentContextBundle N)
      → bundle.disallowed_mutation_targets
        ≡ unique_sorted sorting (targets ++ required_disallowed_targets)
      → (ts : List String) → all (includes required_disallowed_targets) ts ≡ true
      → missing_targets sorting ts bundle ≡ []
  required_targets_named targets bundle e [] h = refl
  required_targets_named targets bundle e (t ∷ ts) h = ground (
    arith,
    e,
    includes-unique_sorted sorting (targets ++ required_disallowed_targets) t,
    any-append (λ u. u == t) targets required_disallowed_targets,
    required_targets_named targets bundle e ts,
  )

  module _ (num : Numbers N) (agent_run_id session_id : String) (gap : AgentOpportunityGapFact N)
      (created_at : String) (assumptions operations targets : Option (List String)) where
    abbrev built : AgentContextBundle N
    built =
        built_bundle sorting agent_run_id session_id gap created_at assumptions operations targets

    context_issues-built : context_issues sorting built ≡ []
    unfolding context_issues built_bundle
    context_issues-built =
        let named =
          required_targets_named (coalesce targets []) built refl required_disallowed_targets
            refl in
        ground (
          arith,
          named,
          beq_refl gap.brand_id,
          beq_refl gap.store_id,
          beq_refl gap.opportunity_gap_id,
          unique_sorted-unique_sorted sorting gap.evidence_refs,
          same_strings_self (unique_sorted sorting gap.evidence_refs),
        )

    -- A bundle that is built from a gap is returned exactly if its plain object is taken: it never
    -- fails the refinement, whatever further targets are given, for a sorting that keeps the
    -- members of a list and leaves a sorted list alone.
    pub build_agent_context_bundle_lem :
        build_agent_context_bundle sorting num agent_run_id session_id gap created_at assumptions
          operations targets
        ≡ (if bundle_schema num built then ok built else thrown plain_rejected)
    unfolding build_agent_context_bundle parse_context
    build_agent_context_bundle_lem = rw context_issues-built
