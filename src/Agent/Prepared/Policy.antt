-- ===== src/Agent/Prepared/Policy.antt =====
-- `evaluatePreparedAttemptPolicy` of src/agent/prepared-attempt.ts.
use data_dyna.Base.{
  String, Option, none, some, List, [], ◌∷◌, Bool, false, not, ◌&&◌, ◌||◌, ◌==◌, string_eq,
  option_beq, any, find?, coalesce, if◌then◌else◌,
}
use Prim.Native.String.{◌++◌ as string_append}
use data_dyna.Contract.{Json, Fields, str, obj, end, field}
use data_dyna.Agent.{nonempty}
use data_dyna.Agent.Sidecar.{
  tool_text, PreparedAttemptStatus, blocked_missing_freshness, blocked_stale_freshness,
  blocked_dead_letter, blocked_tenant_mismatch, blocked_policy,
}
use data_dyna.Agent.Prepared.{
  Platform, FailureCode, missing_freshness, stale_freshness, dead_lettered_worker,
  tenant_or_source_mismatch, forbidden_raw_data, free_form_identity_scope, unsafe_tool_catalog,
  PreparedAttemptFailureReason, WorkerFreshnessRef, AgentReadOnlyToolDescriptor,
  PreparedAttemptDeadLetterDiagnosis, PrepareAgentAttemptInput, has_forbidden_raw_data,
  stable_stringify,
}
use data_dyna.Worker.Types.{WorkerKind, kind_eq, kind_text}

pub record PolicyFailure : Type 0 where
  pub status : PreparedAttemptStatus
  pub reason : PreparedAttemptFailureReason

abbrev pub failure : PreparedAttemptStatus → FailureCode → String → PolicyFailure
failure status code message = record {
  status = status;
  reason = record { code = code; message = message };
}

abbrev pub optional_field : String → Option String → Fields → Fields
optional_field key none rest = rest
optional_field key (some t) rest = field key (str t) rest

abbrev pub source_scope : WorkerFreshnessRef → Json
source_scope ref = obj (
    field "source" (str ref.source) (
      optional_field "producerService" ref.producer_service
        (optional_field "producerEnvironment" ref.producer_environment end)))

abbrev pub includes_kind : List WorkerKind → WorkerKind → Bool
includes_kind kinds kind = any (λ k. k == kind) kinds

-- The first ref of a kind.
abbrev pub ref_for : List WorkerFreshnessRef → WorkerKind → Option WorkerFreshnessRef
ref_for refs kind = find? (λ ref. ref.worker_kind == kind) refs

abbrev pub is_unsafe : AgentReadOnlyToolDescriptor → Bool
is_unsafe tool =
    not (tool.mutation_policy == "no_core_or_business_mutation")
    || not (tool.capability == "read_context")

abbrev pub or_later : Option PolicyFailure → Option PolicyFailure → Option PolicyFailure
or_later (some f) later = some f
or_later none later = later

abbrev pub catalog_failure : Option AgentReadOnlyToolDescriptor → Option PolicyFailure
catalog_failure none = none
catalog_failure (some tool) = some (
    failure blocked_policy unsafe_tool_catalog (
      string_append "Prepared attempt tool catalog contains an unsafe tool: "
        (string_append (tool_text tool.name) ".")))

abbrev pub dead_letter_failure : Option PreparedAttemptDeadLetterDiagnosis → Option PolicyFailure
dead_letter_failure none = none
dead_letter_failure (some d) = some (
    failure blocked_dead_letter dead_lettered_worker (
      string_append "Worker " (
        string_append (kind_text d.worker_kind) (
          string_append " has dead-letter diagnosis " (
            string_append d.reason_code
              (string_append "; next action: " (string_append d.next_operator_action ".")))))))

module _ (platform : Platform) (input : PrepareAgentAttemptInput) where
  unfoldable pub tenant_matches : WorkerFreshnessRef → Bool
  tenant_matches ref =
      option_beq ref.brand_id (some input.brand_id) && option_beq ref.store_id (some input.store_id)

  abbrev is_source : WorkerFreshnessRef → Option WorkerFreshnessRef → Bool
  is_source ref none = false
  is_source ref (some expected) =
      stable_stringify platform (source_scope ref)
      == stable_stringify platform (source_scope expected)

  unfoldable pub source_matches_required_refs :
      List WorkerFreshnessRef → List WorkerKind → WorkerFreshnessRef → Bool
  source_matches_required_refs refs kinds ref =
      is_source ref (find? (λ candidate. includes_kind kinds candidate.worker_kind) refs)

  -- An empty text is no minimum.
  abbrev pub is_stale : Option String → WorkerFreshnessRef → Bool
  is_stale none ref = false
  is_stale (some minimum) ref = nonempty minimum && platform.is_before ref.committed_at minimum

  module _ (refs : List WorkerFreshnessRef) (required_worker_kinds : List WorkerKind) where
    abbrev pub ref_failure : WorkerKind → Option WorkerFreshnessRef → Option PolicyFailure
    ref_failure kind none = some (
        failure blocked_missing_freshness missing_freshness (
          string_append "Missing committed worker freshness for "
            (string_append (kind_text kind) ".")))
    ref_failure kind (some ref) =
        if not (tenant_matches ref)
          || not (source_matches_required_refs refs required_worker_kinds ref)
        then some (
            failure blocked_tenant_mismatch tenant_or_source_mismatch (
              string_append "Worker freshness for " (
                string_append (kind_text kind)
                  " does not match prepared attempt tenant/source scope.")))
        else if is_stale input.minimum_committed_at ref
        then some (
            failure blocked_stale_freshness stale_freshness (
              string_append "Worker freshness for " (
                string_append (kind_text kind) " is older than the required freshness watermark.")))
        else if has_forbidden_raw_data platform (obj ref.output_summary)
        then some (
            failure blocked_policy forbidden_raw_data (
              string_append "Worker freshness summary for " (
                string_append (kind_text kind)
                  " contains raw, secret, SQL, or identifier-shaped data.")))
        else none

    unfoldable pub check_kinds : List WorkerKind → Option PolicyFailure
    check_kinds [] = none
    check_kinds (kind ∷ kinds) = or_later (ref_failure kind (ref_for refs kind)) (check_kinds kinds)

    abbrev pub identity_failure : Option PolicyFailure
    identity_failure =
        if not (input.identity_source == "deterministic_tenant_scope")
        then some (
            failure blocked_policy free_form_identity_scope
              "Prepared attempt identity must come from deterministic tenant scope, not free-form Agent input.")
        else none

    unfoldable pub evaluate_prepared_attempt_policy :
        List AgentReadOnlyToolDescriptor → Option PolicyFailure
    evaluate_prepared_attempt_policy tool_catalog = or_later identity_failure (
        or_later (catalog_failure (find? is_unsafe tool_catalog)) (
          or_later
            (dead_letter_failure (
              find? (λ d. includes_kind required_worker_kinds d.worker_kind)
                (coalesce input.dead_letter_diagnoses [])))
            (check_kinds required_worker_kinds)))
