-- ===== src/Policy/Evidence.antt =====
-- `ExecutionOutcomeEvidence` and its parts (backend/src/work_assistant/execution_policy.py), with
-- the validators: building an evidence record runs them. Versions and stop reasons are compared
-- with patterns, the bounds `ge=0` are the type ℕ.
use work_assistant_agent.Prelude.{
  ℕ, Bool, true, false, ◌||◌, ◌&&◌, not, String, Option, none, some, List, [], ◌∷◌, Result, ok, err,
  leb, all, is_unique, is_subset, is_none, is_some, if◌then◌else◌,
}
use work_assistant_agent.Prelude.Names.{text_length}
use work_assistant_agent.Agents.Pattern.{valid_identifier, valid_version}
use work_assistant_agent.Policy.Violation.{RunFailureCode, service_restarted}
use work_assistant_agent.Policy.State.{ResultValidation}

pub data OutcomeStatus : Type 0 where
  completed failed cancelled : OutcomeStatus

pub record BudgetUsageEvidence : Type 0 where
  pub model_steps : ℕ
  pub tool_calls_attempted : ℕ
  pub tool_calls_succeeded : ℕ
  pub repeated_tool_calls : ℕ
  pub no_progress_steps : ℕ
  pub elapsed_ms : ℕ

pub record ExecutionOutcomeEvidence : Type 0 where
  pub status : OutcomeStatus
  pub stop_reason : String
  pub failure_code : Option RunFailureCode
  pub usage : Option BudgetUsageEvidence
  pub accepted_source_ids : List String
  pub result_source_ids : List String
  pub result_schema_version : Option String
  pub result_validation : ResultValidation

-- The `ValueError`s, in the order of the source.
pub data EvidenceFault : Type 0 where
  stop_reason_invalid source_ids_invalid schema_version_invalid : EvidenceFault
  failure_code_missing failure_code_unexpected completed_unvalidated usage_missing : EvidenceFault
  validation_disagrees sources_exceed_ledger unvalidated_sources : EvidenceFault

abbrev pub is_failed : OutcomeStatus → Bool
is_failed OutcomeStatus.failed = true
is_failed _ = false

abbrev pub is_completed : OutcomeStatus → Bool
is_completed OutcomeStatus.completed = true
is_completed _ = false

abbrev pub is_cancelled : OutcomeStatus → Bool
is_cancelled OutcomeStatus.cancelled = true
is_cancelled _ = false

abbrev pub is_passed : ResultValidation → Bool
is_passed ResultValidation.passed = true
is_passed _ = false

abbrev pub is_not_run : ResultValidation → Bool
is_not_run ResultValidation.not_run = true
is_not_run _ = false

abbrev pub is_restart : Option RunFailureCode → Bool
is_restart (some service_restarted) = true
is_restart _ = false

abbrev pub is_empty {ℓ} : {A : Type ℓ} → List A → Bool
is_empty [] = true
is_empty (_ ∷ _) = false

-- `validate_accepted_sources`
unfoldable pub valid_source_ids : List String → Bool
valid_source_ids ids =
    is_unique ids && all (λ id. leb 1 (text_length id) && leb (text_length id) 128) ids

-- `validate_terminal_semantics`
unfoldable pub terminal_fault : ExecutionOutcomeEvidence → Option EvidenceFault
terminal_fault o =
    if is_failed o.status && is_none o.failure_code
    then some failure_code_missing
    else if not (is_failed o.status) && is_some o.failure_code
    then some failure_code_unexpected
    else if is_completed o.status && (not (is_passed o.result_validation) || is_none o.usage)
    then some completed_unvalidated
    else if is_none o.usage && (not (is_restart o.failure_code) && not (is_cancelled o.status))
    then some usage_missing
    else if not (is_not_run o.result_validation) && is_none o.result_schema_version
        || is_not_run o.result_validation && is_some o.result_schema_version
    then some validation_disagrees
    else if not (is_subset o.result_source_ids o.accepted_source_ids)
    then some sources_exceed_ledger
    else if not (is_passed o.result_validation) && not (is_empty o.result_source_ids)
    then some unvalidated_sources
    else none

abbrev pub version_fits : Option String → Bool
version_fits none = true
version_fits (some v) = valid_version v

-- `ExecutionOutcomeEvidence(...)`
unfoldable pub build_outcome :
    ExecutionOutcomeEvidence → Result EvidenceFault ExecutionOutcomeEvidence
unfolding valid_source_ids terminal_fault valid_identifier valid_version
build_outcome o =
    if not (valid_identifier o.stop_reason)
    then err stop_reason_invalid
    else if not (valid_source_ids o.accepted_source_ids && valid_source_ids o.result_source_ids)
    then err source_ids_invalid
    else if not (version_fits o.result_schema_version)
    then err schema_version_invalid
    else elim (terminal_fault o) [ none ↦ ok o | some e ↦ err e ]

-- `orphaned_run_outcome`
unfoldable pub orphaned_run_outcome : List String → Result EvidenceFault ExecutionOutcomeEvidence
unfolding build_outcome
orphaned_run_outcome accepted = build_outcome (record {
  status = OutcomeStatus.failed;
  stop_reason = "service_restarted";
  failure_code = some service_restarted;
  usage = none;
  accepted_source_ids = accepted;
  result_source_ids = [];
  result_schema_version = none;
  result_validation = ResultValidation.not_run;
})
