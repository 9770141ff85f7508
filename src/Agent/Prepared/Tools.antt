-- ===== src/Agent/Prepared/Tools.antt =====
-- The read-only tools of a prepared attempt and the repository in src/agent/prepared-attempt.ts.
use data_dyna.Base.{
  String, Option, none, Bool, true, false, not, ◌==◌, string_eq, ltb, Outcome, ok, thrown, ◌>>=◌,
  if◌then◌else◌,
}
use Prim.Native.String.{◌++◌ as string_append}
use data_dyna.Contract.{obj}
use data_dyna.Agent.Sidecar.{PreparedAttemptStatus, prepared, blocked_dead_letter}
use data_dyna.Agent.Prepared.{
  Platform, PreparedAttemptFailureReason, WorkerFreshnessRef, PreparedAgentAttempt,
  has_forbidden_raw_data, byte_length,
}
use data_dyna.Worker.Types.{WorkerKind, kind_eq, kind_text}
use data_dyna.Agent.Prepared.Schemas.{prepared_schema, require_freshness_ref}
use data_dyna.Base.{Assoc, insert, lookup}

module _ (platform : Platform) where
  -- The tools of an attempt. Making them parses it, and so does the diagnosis.
  abbrev pub assert_prepared : PreparedAttemptStatus → String → Outcome String (Unit {0})
  assert_prepared prepared message = ok tt
  assert_prepared _ message = thrown message

  abbrev has_tools : PreparedAttemptStatus → Bool
  has_tools prepared = true
  has_tools blocked_dead_letter = true
  has_tools _ = false

  unfoldable pub create_prepared_attempt_read_only_tools :
      PreparedAgentAttempt → Outcome String PreparedAgentAttempt
  create_prepared_attempt_read_only_tools attempt =
      if not (prepared_schema attempt)
      then thrown platform.schema_message
      else if has_tools attempt.status
      then ok attempt
      else thrown "Read-only Agent tools require a prepared or blocked dead-letter attempt."

  abbrev pub assert_prepared_for_summary_tool : PreparedAgentAttempt → Outcome String (Unit {0})
  assert_prepared_for_summary_tool attempt =
      assert_prepared attempt.status "Prepared attempt summary tools require a prepared attempt."

  unfoldable pub read_worker_freshness :
      PreparedAgentAttempt → WorkerKind → Outcome String WorkerFreshnessRef
  read_worker_freshness attempt kind = assert_prepared_for_summary_tool attempt >>= λ _.
      require_freshness_ref attempt.worker_freshness_refs kind

  abbrev summary_of :
      PreparedAgentAttempt
      → (kind : WorkerKind) → String
      → WorkerFreshnessRef
      → Outcome String WorkerFreshnessRef
  summary_of attempt kind committed_job_id ref =
      if not (ref.committed_job_id == committed_job_id)
      then thrown (
          string_append "Tool call is not scoped to the prepared "
            (string_append (kind_text kind) " freshness ref."))
      else if ltb attempt.context_budget.max_tool_result_bytes
          (byte_length platform (obj ref.output_summary))
      then thrown "Read-only tool result exceeds the prepared attempt tool-result budget."
      else if has_forbidden_raw_data platform (obj ref.output_summary)
      then thrown
          "Read-only tool result contains forbidden raw, secret, SQL, or identifier-shaped data."
      else ok ref

  -- The summary that a tool hands over is the one of the ref.
  unfoldable pub read_summary :
      PreparedAgentAttempt
      → (kind : WorkerKind) (committed_job_id : String) → Outcome String WorkerFreshnessRef
  read_summary attempt kind committed_job_id = assert_prepared_for_summary_tool attempt >>= λ _.
      require_freshness_ref attempt.worker_freshness_refs kind >>= λ ref.
      summary_of attempt kind committed_job_id ref

  abbrev diagnosis_of :
      PreparedAttemptStatus
      → Option PreparedAttemptFailureReason
      → Option PreparedAttemptFailureReason
  diagnosis_of blocked_dead_letter reason = reason
  diagnosis_of _ reason = none

  unfoldable read_prepared_attempt_dead_letter_diagnosis :
      PreparedAgentAttempt → Outcome String (Option PreparedAttemptFailureReason)
  read_prepared_attempt_dead_letter_diagnosis attempt =
      if prepared_schema attempt
      then ok (diagnosis_of attempt.status attempt.failure_reason)
      else thrown platform.schema_message

  -- `InMemoryPreparedAgentAttemptRepository` on its map of attempts.
  unfoldable save :
      PreparedAgentAttempt
      → Assoc String PreparedAgentAttempt
      → Assoc String PreparedAgentAttempt × Outcome String (Unit {0})
  save attempt attempts =
      if prepared_schema attempt
      then (insert attempt.attempt_id attempt attempts, ok tt)
      else (attempts, thrown platform.schema_message)

  unfoldable get : String → Assoc String PreparedAgentAttempt → Option PreparedAgentAttempt
  get attempt_id attempts = lookup attempt_id attempts
