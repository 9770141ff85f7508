-- ===== src/Agent/Prepared/Ready.antt =====
-- What an attempt that src/agent/prepared-attempt.ts has prepared lets an agent read.
use data_dyna.Base.{
  map, Option, none, some, List, [], ◌∷◌, Bool, true, false, not, ◌==◌, string_eq, ◌≡◌, ◌∙◌, ap,
  sym, refl, subst, inl, inr, Bool-cases, Option-cases, All, find?, coalesce, ltb, ok,
  bind_returned, if◌then◌else◌,
}
use data_dyna.Contract.{obj}
use data_dyna.Agent.Sidecar.{prepared}
use data_dyna.Agent.Prepared.{
  Platform, PrepareAgentAttemptInput, PreparedAgentAttempt, WorkerFreshnessRef, AgentContextSeed,
  AgentReadOnlyToolDescriptor, PreparedAttemptDeadLetterDiagnosis, has_forbidden_raw_data,
  byte_length,
}
use data_dyna.Agent.Prepared.Policy.{
  PolicyFailure, ref_for, is_unsafe, includes_kind, tenant_matches, source_matches_required_refs,
  is_stale, ref_failure, or_later, check_kinds, catalog_failure, dead_letter_failure,
  evaluate_prepared_attempt_policy,
}
use data_dyna.Agent.Prepared.Schemas.{
  required_of, catalog_of, require_freshness_ref, seed_schema, seed_json,
}
use data_dyna.Agent.Prepared.Prepare.{
  to_refs, index_of, schema_parse, parse_attempt, seed_of, within_budget, prepare_with,
  prepare_agent_attempt,
}
use data_dyna.Agent.Prepared.Tools.{read_worker_freshness}
use data_dyna.Worker.Types.{WorkerKind, kind_eq}

module _ (platform : Platform) (input : PrepareAgentAttemptInput) where
  -- A ref of the attempt's brand and store that may be read.
  pub record Usable (refs : List WorkerFreshnessRef) (ref : WorkerFreshnessRef) : Type 0 where
    pub tenant : tenant_matches platform input ref ≡ true
    pub source : source_matches_required_refs platform input refs (required_of input) ref ≡ true
    pub fresh : is_stale platform input input.minimum_committed_at ref ≡ false
    pub clean : has_forbidden_raw_data platform (obj ref.output_summary) ≡ false

  -- What an attempt gives for a kind.
  pub record Readable (attempt : PreparedAgentAttempt) (kind : WorkerKind) : Type 0 where
    pub ref : WorkerFreshnessRef
    pub read : read_worker_freshness platform attempt kind ≡ ok ref
    pub usable : Usable attempt.worker_freshness_refs ref

  pub record Ready (attempt : PreparedAgentAttempt) : Type 0 where
    pub status : attempt.status ≡ prepared
    pub deterministic : (input.identity_source == "deterministic_tenant_scope") ≡ true
    pub safe_tools : All (λ tool. is_unsafe tool ≡ false) (catalog_of input)
    pub no_dead_letter :
        All
          (λ d. includes_kind (required_of input) d.worker_kind ≡ false)
          (coalesce input.dead_letter_diagnoses [])
    pub scope : attempt.allowed_read_capabilities ≡ map (λ tool. tool.name) (catalog_of input)
    pub readable : All (Readable attempt) (required_of input)

schema_parse_returned :
    {A : Type 0} (platform : Platform) (taken : Bool) (b a : A)
    → schema_parse platform taken b ≡ ok a
    → b ≡ a
schema_parse_returned platform true b a e = cc
schema_parse_returned platform false b a e = cc

find?-none :
    {A : Type 0} (p : A → Bool) (xs : List A) → find? p xs ≡ none → All (λ x. p x ≡ false) xs
find?-none p [] h = tt
find?-none p (x ∷ xs) h = elim (Bool-cases (p x)) [
  | inl yes_ ↦ cc (rw yes_ at h)
  | inr no_ ↦ (no_, find?-none p xs (rw no_ at h))
]

or_later-none :
    (now later : Option PolicyFailure) → or_later now later ≡ none → (now ≡ none) × (later ≡ none)
or_later-none none later h = (refl, h)
or_later-none (some f) later h = cc

none_of_test : {A : Type 0} (a : A) (b : Bool) → (if not b then some a else none) ≡ none → b ≡ true
none_of_test a true h = refl
none_of_test a false h = cc

none_of_catalog : (o : Option AgentReadOnlyToolDescriptor) → catalog_failure o ≡ none → o ≡ none
none_of_catalog none h = refl
none_of_catalog (some tool) h = cc

none_of_letters :
    (o : Option PreparedAttemptDeadLetterDiagnosis) → dead_letter_failure o ≡ none → o ≡ none
none_of_letters none h = refl
none_of_letters (some d) h = cc

module _ (platform : Platform) (input : PrepareAgentAttemptInput)
    (refs : List WorkerFreshnessRef) where
  abbrev Found : WorkerKind → Type 0
  Found kind =
      (ref : WorkerFreshnessRef) × (ref_for refs kind ≡ some ref) × Usable platform input refs ref

  ref_failure-Usable :
      (kind : WorkerKind) (ref : WorkerFreshnessRef)
      → ref_failure platform input refs (required_of input) kind (some ref) ≡ none
      → Usable platform input refs ref
  ref_failure-Usable kind ref h = elim (Bool-cases (tenant_matches platform input ref)) [
    | inr t ↦ cc (rw t at h)
    | inl t ↦
        elim (Bool-cases
          (source_matches_required_refs platform input refs (required_of input) ref)) [
            | inr s ↦ cc (rw s at (rw t at h))
            | inl s ↦ elim (Bool-cases (is_stale platform input input.minimum_committed_at ref)) [
              | inl f ↦ cc (rw f at (rw s at (rw t at h)))
              | inr f ↦
                  elim (Bool-cases (has_forbidden_raw_data platform (obj ref.output_summary))) [
                    | inl c ↦ cc (rw c at (rw f at (rw s at (rw t at h))))
                    | inr c ↦ record { tenant = t; source = s; fresh = f; clean = c }
                  ]
            ]
          ]
  ]

  ref_failure-Found :
      (kind : WorkerKind)
      → ref_failure platform input refs (required_of input) kind (ref_for refs kind) ≡ none
      → Found kind
  ref_failure-Found kind h = elim (Option-cases (ref_for refs kind)) [
    | inl e ↦ cc (rw e at h)
    | inr (ref, e) ↦ (ref, e, ref_failure-Usable kind ref (rw e at h))
  ]

  check_kinds-Found :
      (kinds : List WorkerKind)
      → check_kinds platform input refs (required_of input) kinds ≡ none
      → All Found kinds
  unfolding check_kinds
  check_kinds-Found [] h = tt
  check_kinds-Found (kind ∷ kinds) h =
      let (first, later) = or_later-none _ _ h in
      (ref_failure-Found kind first, check_kinds-Found kinds later)

  policy_clear :
      evaluate_prepared_attempt_policy platform input refs (required_of input) (catalog_of input)
        ≡ none
      → ((input.identity_source == "deterministic_tenant_scope") ≡ true)
        × All (λ tool. is_unsafe tool ≡ false) (catalog_of input)
        × All
            (λ d. includes_kind (required_of input) d.worker_kind ≡ false)
            (coalesce input.dead_letter_diagnoses [])
        × All Found (required_of input)
  unfolding evaluate_prepared_attempt_policy
  policy_clear h =
      let (identity, rest) = or_later-none _ _ h in
      let (catalog, rest') = or_later-none _ _ rest in
      let (letters, kinds) = or_later-none _ _ rest' in
      (
        none_of_test _ (input.identity_source == "deterministic_tenant_scope") identity,
        find?-none is_unsafe (catalog_of input) (none_of_catalog _ catalog),
        find?-none _ (coalesce input.dead_letter_diagnoses []) (none_of_letters _ letters),
        check_kinds-Found (required_of input) kinds,
      )

  within_budget-seeded :
      (made seed : AgentContextSeed) (whole attempt : PreparedAgentAttempt)
      → within_budget platform input refs made whole ≡ ok attempt
      → attempt.context_seed ≡ some seed
      → whole ≡ attempt
  within_budget-seeded made seed whole attempt e h =
      elim (Bool-cases
        (ltb input.context_budget.max_seed_bytes (byte_length platform (seed_json made)))) [
          | inl over ↦
              let blocked = schema_parse_returned platform _ _ attempt (rw over at e) in
              cc (ap (λ a. a.context_seed) blocked)
          | inr fits ↦ cc (rw fits at e)
        ]

  -- An attempt with a seed comes from a policy without a failure.
  prepare_with-seeded :
      (policy : Option PolicyFailure) (attempt : PreparedAgentAttempt) (seed : AgentContextSeed)
      → prepare_with platform input refs policy ≡ ok attempt
      → attempt.context_seed ≡ some seed
      → (policy ≡ none)
        × (attempt.status ≡ prepared)
        × (attempt.worker_freshness_refs ≡ refs)
        × (attempt.allowed_read_capabilities ≡ map (λ tool. tool.name) (catalog_of input))
  unfolding prepare_with
  prepare_with-seeded (some f) attempt seed e h =
      let same = schema_parse_returned platform _ _ attempt e in cc (ap (λ a. a.context_seed) same)
  prepare_with-seeded none attempt seed e h =
      let (entries, e1, e2) = bind_returned (index_of platform refs (required_of input)) _ e in
      let made = seed_of platform input entries in
      let (made', e3, e4) = bind_returned (schema_parse platform (seed_schema made) made) _ e2 in
      let (whole, e5, e6) = bind_returned (parse_attempt platform input _) _ e4 in
      let same = schema_parse_returned platform _ _ whole e5 in
      let taken = same ∙ within_budget-seeded made' seed whole attempt e6 h in
      (
        refl,
        ap (λ a. a.status) (sym taken),
        ap (λ a. a.worker_freshness_refs) (sym taken),
        ap (λ a. a.allowed_read_capabilities) (sym taken),
      )

module _ (platform : Platform) (input : PrepareAgentAttemptInput)
    (attempt : PreparedAgentAttempt) where
  Found-Readable :
      attempt.status ≡ prepared
      → (kind : WorkerKind) → Found platform input attempt.worker_freshness_refs kind
      → Readable platform input attempt kind
  unfolding read_worker_freshness require_freshness_ref
  Found-Readable h kind (ref, found, usable) = record {
    ref = ref;
    read = rw h (rw found refl);
    usable = usable;
  }

  All-Readable :
      attempt.status ≡ prepared
      → (kinds : List WorkerKind) → All (Found platform input attempt.worker_freshness_refs) kinds
      → All (Readable platform input attempt) kinds
  All-Readable h [] all = tt
  All-Readable h (kind ∷ kinds) (found, all) =
      (Found-Readable h kind found, All-Readable h kinds all)

  -- An attempt that preparing returns with a context seed is prepared, its identity comes from the
  -- tenant's scope, its catalog has only tools that read, no required worker has a dead letter,
  -- and for each required kind reading the freshness returns a ref of the attempt's brand and
  -- store and of the source of the required refs, no older than the minimum and without forbidden
  -- data.
  pub prepare_agent_attempt-Ready :
      (seed : AgentContextSeed)
      → prepare_agent_attempt platform input ≡ ok attempt
      → attempt.context_seed ≡ some seed
      → Ready platform input attempt
  unfolding prepare_agent_attempt
  prepare_agent_attempt-Ready seed e h =
      let (refs, e1, e2) = bind_returned (to_refs platform input.freshness_records) _ e in
      let (clear, status, same, scope) =
        prepare_with-seeded platform input refs _ attempt seed e2 h in
      let (identity, tools, letters, found) = policy_clear platform input refs clear in
      record {
        status = status;
        deterministic = identity;
        safe_tools = tools;
        no_dead_letter = letters;
        scope = scope;
        readable =
            All-Readable status (required_of input)
              (subst (λ rs. All (Found platform input rs) (required_of input)) (sym same) found);
      }
