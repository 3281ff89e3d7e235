-- ===== src/Policy/Outcomes.antt =====
-- The evidence of an outcome: `outcome` of `RunExecution`
-- (backend/src/work_assistant/execution_policy.py).
use work_assistant_agent.Prelude.{
  ℕ, ◌≡◌, Bool, true, false, not, ◌&&◌, String, Option, none, some, if◌then◌else◌, is_some,
}
use work_assistant_agent.Policy.Violation.{RunFailureCode}
use work_assistant_agent.Policy.State.{RunConfig, RunExecution}
use work_assistant_agent.Policy.Evidence.{
  OutcomeStatus, ExecutionOutcomeEvidence, is_failed, is_completed, is_passed, is_not_run, is_empty,
  is_restart,
}
use work_assistant_agent.Policy.Results.{usage}

-- The status, the failure code and the usage fit.
pub record Fits (s : RunExecution) (status : OutcomeStatus) (code : Option RunFailureCode)
    (usage_known : Bool) : Type 0 where
  pub coded : is_failed status ≡ is_some code
  pub finished :
      is_completed status ≡ true → (is_passed s.result_validation ≡ true) × (usage_known ≡ true)
  pub metered : is_failed status ≡ true → usage_known ≡ false → is_restart code ≡ true

-- What `outcome` hands to the constructor of the evidence.
abbrev evidence :
    RunConfig
    → ℕ
    → OutcomeStatus
    → String
    → Option RunFailureCode
    → Bool
    → RunExecution
    → ExecutionOutcomeEvidence
evidence c end status reason code usage_known s = record {
  status = status;
  stop_reason = reason;
  failure_code = code;
  usage = if usage_known then some (usage end s) else none;
  accepted_source_ids = s.persisted_source_order;
  result_source_ids = s.result_source_ids;
  result_schema_version =
      if is_not_run s.result_validation then none else some c.agent.result_contract.schema_version;
  result_validation = s.result_validation;
}

-- The last result was refused, and the one before it, which passed, cites sources.
abbrev pub keeps_sources : RunExecution → Bool
keeps_sources s = not (is_passed s.result_validation) && not (is_empty s.result_source_ids)
