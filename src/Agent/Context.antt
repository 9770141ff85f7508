-- ===== src/Agent/Context.antt =====
-- src/agent/context-bundle.ts: the facts on which an agent may draft.
pub mod Builds
use data_dyna.Base.{
  ℕ, String, Option, none, some, List, [], ◌∷◌, ◌++◌, Bool, true, false, not, ◌&&◌, ◌||◌, ◌==◌,
  string_eq, all, coalesce, Outcome, ok, thrown, if◌then◌else◌, ltb,
}
use data_dyna.Agent.{
  Numbers, Sorting, all_hold, nonempty, nonempty_texts, includes, unique_sorted, same_strings,
  MetricWindow, snapshot_metric_ids, is_share,
}

pub data GuardrailRelation : Type 0 where
  growth_metric negative_guardrail funnel_metric : GuardrailRelation

pub data GapComparisonBasis : Type 0 where
  peer_p75 peer_median : GapComparisonBasis

pub data GapDirection : Type 0 where
  higher_is_better lower_is_better : GapDirection

pub data PeerSampleStatus : Type 0 where
  sufficient weak_sample insufficient_sample : PeerSampleStatus

pub data BenchmarkInterpretation : Type 0 where
  directional_non_causal_gap insufficient_sample_not_ranked : BenchmarkInterpretation

pub record AgentOpportunityGapFact (N : Type 0) : Type 0 where
  pub opportunity_gap_id : String
  pub brand_id : String
  pub store_id : String
  pub snapshot_date : String
  pub segment_candidate_id : String
  pub metric_id : String
  pub metric_window : MetricWindow
  pub guardrail_relation : GuardrailRelation
  pub target_value : N
  pub peer_median_value : Option N
  pub peer_p75_value : Option N
  pub comparison_basis : GapComparisonBasis
  pub direction : GapDirection
  pub gap_value : N
  pub gap_ratio : Option N
  pub rank : Option ℕ
  pub confidence : N
  pub sample_status : PeerSampleStatus
  pub interpretation : BenchmarkInterpretation
  pub evidence_refs : List String

pub record AgentContextBundle (N : Type 0) : Type 0 where
  pub agent_run_id : String
  pub session_id : String
  pub brand_id : String
  pub store_id : String
  pub opportunity_gap_id : String
  pub created_at : String
  pub opportunity_gap : AgentOpportunityGapFact N
  pub fact_evidence_refs : List String
  pub assumptions : List String
  pub allowed_draft_operations : List String
  pub disallowed_mutation_targets : List String
  pub evidence_refs : List String

abbrev pub core_write_disallowed_targets : List String
core_write_disallowed_targets =
    "orders" ∷ "metrics" ∷ "benchmarks" ∷ "evidence_facts" ∷ "business_configs" ∷ []

abbrev pub business_mutation_disallowed_targets : List String
business_mutation_disallowed_targets =
    "menu" ∷ "price" ∷ "coupon" ∷ "customer_message_execution" ∷ []

abbrev pub default_allowed_draft_operations : List String
default_allowed_draft_operations =
    "inspect_store_context" ∷ "inspect_peer_benchmark" ∷ "inspect_opportunity_gap"
    ∷ "draft_intervention_hypothesis" ∷ "draft_experiment_plan" ∷ "request_merchant_review_gate"
    ∷ []

-- The targets that a bundle has to name.
abbrev pub required_disallowed_targets : List String
required_disallowed_targets = core_write_disallowed_targets ++ business_mutation_disallowed_targets

abbrev pub some_of : List String → List String → Bool
some_of allowed [] = false
some_of allowed (t ∷ ts) = all (includes allowed) (t ∷ ts)

pub data ContextIssue : Type 0 where
  wrong_brand wrong_store wrong_gap wrong_evidence : ContextIssue
  missing_target : String → ContextIssue

-- What `parse` throws: the plain object is rejected, or its refinement finds issues.
pub data ContextFailure : Type 0 where
  plain_rejected : ContextFailure
  refined : List ContextIssue → ContextFailure

abbrev issue_if : Bool → ContextIssue → List ContextIssue
issue_if b i = if b then i ∷ [] else []

module _ {N : Type 0} (num : Numbers N) where
  abbrev nonnegative : Option N → Bool
  nonnegative none = true
  nonnegative (some n) = num.le num.nought n

  abbrev positive_rank : Option ℕ → Bool
  positive_rank none = true
  positive_rank (some n) = ltb 0 n

  -- The checks of `AgentOpportunityGapFactSchema` and of the plain object of
  -- `AgentContextBundleSchema`.
  abbrev pub gap_fields : AgentOpportunityGapFact N → List Bool
  gap_fields gap =
      (nonempty gap.opportunity_gap_id)
      ∷ (nonempty gap.brand_id)
      ∷ (nonempty gap.store_id)
      ∷ (nonempty gap.snapshot_date)
      ∷ (nonempty gap.segment_candidate_id)
      ∷ (includes snapshot_metric_ids gap.metric_id)
      ∷ (num.le num.nought gap.gap_value)
      ∷ (nonnegative gap.gap_ratio)
      ∷ (positive_rank gap.rank)
      ∷ (is_share num gap.confidence)
      ∷ (nonempty_texts gap.evidence_refs)
      ∷ []

  unfoldable pub gap_schema : AgentOpportunityGapFact N → Bool
  gap_schema gap = all_hold (gap_fields gap)

  abbrev pub bundle_fields : AgentContextBundle N → List Bool
  bundle_fields bundle =
      (nonempty bundle.agent_run_id)
      ∷ (nonempty bundle.session_id)
      ∷ (nonempty bundle.brand_id)
      ∷ (nonempty bundle.store_id)
      ∷ (nonempty bundle.opportunity_gap_id)
      ∷ (nonempty bundle.created_at)
      ∷ (gap_schema bundle.opportunity_gap)
      ∷ (nonempty_texts bundle.fact_evidence_refs)
      ∷ (all nonempty bundle.assumptions)
      ∷ (some_of default_allowed_draft_operations bundle.allowed_draft_operations)
      ∷ (some_of required_disallowed_targets bundle.disallowed_mutation_targets)
      ∷ (nonempty_texts bundle.evidence_refs)
      ∷ []

  unfoldable pub bundle_schema : AgentContextBundle N → Bool
  bundle_schema bundle = all_hold (bundle_fields bundle)

module _ {N : Type 0} (sorting : Sorting) where
  abbrev pub missing_targets : List String → AgentContextBundle N → List ContextIssue
  missing_targets [] bundle = []
  missing_targets (t ∷ ts) bundle =
      issue_if (not (includes bundle.disallowed_mutation_targets t)) (missing_target t)
      ++ missing_targets ts bundle

  abbrev pub evidence_differs : AgentContextBundle N → Bool
  evidence_differs bundle =
      let facts = unique_sorted sorting bundle.opportunity_gap.evidence_refs in
      not (same_strings (unique_sorted sorting bundle.evidence_refs) facts)
      || not (same_strings (unique_sorted sorting bundle.fact_evidence_refs) facts)

  -- The refinement of `AgentContextBundleSchema`.
  unfoldable pub context_issues : AgentContextBundle N → List ContextIssue
  context_issues bundle =
      let gap = bundle.opportunity_gap in
      issue_if (not (bundle.brand_id == gap.brand_id)) wrong_brand
      ++ (issue_if (not (bundle.store_id == gap.store_id)) wrong_store
          ++ (issue_if (not (bundle.opportunity_gap_id == gap.opportunity_gap_id)) wrong_gap
              ++ (missing_targets required_disallowed_targets bundle
                  ++ issue_if (evidence_differs bundle) wrong_evidence)))

  abbrev pub refined_bundle :
      AgentContextBundle N → List ContextIssue → Outcome ContextFailure (AgentContextBundle N)
  refined_bundle bundle [] = ok bundle
  refined_bundle bundle (i ∷ is) = thrown (refined (i ∷ is))

  -- `AgentContextBundleSchema.parse`.
  unfoldable pub parse_context :
      Numbers N → AgentContextBundle N → Outcome ContextFailure (AgentContextBundle N)
  parse_context num bundle =
      if bundle_schema num bundle
      then refined_bundle bundle (context_issues bundle)
      else thrown plain_rejected

  unfoldable pub built_bundle :
      (agent_run_id session_id : String)
      → AgentOpportunityGapFact N
      → (created_at : String) → (assumptions operations targets : Option (List String))
      → AgentContextBundle N
  built_bundle agent_run_id session_id gap created_at assumptions operations targets =
      let refs = unique_sorted sorting gap.evidence_refs in
      record {
        agent_run_id = agent_run_id;
        session_id = session_id;
        brand_id = gap.brand_id;
        store_id = gap.store_id;
        opportunity_gap_id = gap.opportunity_gap_id;
        created_at = created_at;
        opportunity_gap = gap;
        fact_evidence_refs = refs;
        assumptions =
            coalesce assumptions ("Peer benchmark comparison is directional and non-causal." ∷ []);
        allowed_draft_operations = coalesce operations default_allowed_draft_operations;
        disallowed_mutation_targets =
            unique_sorted sorting (coalesce targets [] ++ required_disallowed_targets);
        evidence_refs = refs;
      }

  unfoldable pub build_agent_context_bundle :
      Numbers N
      → (agent_run_id session_id : String) → AgentOpportunityGapFact N
      → (created_at : String) → (assumptions operations targets : Option (List String))
      → Outcome ContextFailure (AgentContextBundle N)
  build_agent_context_bundle num agent_run_id session_id gap created_at assumptions operations
        targets =
      parse_context num
        (built_bundle agent_run_id session_id gap created_at assumptions operations targets)
