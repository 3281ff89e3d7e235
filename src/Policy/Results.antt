-- ===== src/Policy/Results.antt =====
-- `AgentResult`, `validate_result`, `usage` and `outcome`
-- (backend/src/work_assistant/execution_policy.py).
use work_assistant_agent.Prelude.{
  ℕ, ◌-◌, ◌/◌, Bool, false, ◌&&◌, not, String, Option, none, some, List, [], Result, ok, err, leb,
  ltb, ◌==◌, any, contains, str_eq, if◌then◌else◌,
}
use work_assistant_agent.Prelude.Names.{codes, is_blank, text_length}
use work_assistant_agent.Agents.Definition.{
  SourcePolicy, no_sources, required_if_tool_used, required,
}
use work_assistant_agent.Policy.Violation.{
  RunFailureCode, PolicyViolation, result_refused, sources_refused,
}
use work_assistant_agent.Policy.State.{RunConfig, RunExecution, Policy, ResultValidation, passed}
use work_assistant_agent.Policy.Evidence.{
  OutcomeStatus, BudgetUsageEvidence, ExecutionOutcomeEvidence, EvidenceFault, build_outcome,
  is_not_run, is_empty, valid_source_ids,
}

pub record AgentResult : Type 0 where
  pub schema_version : String
  pub text : String
  pub source_ids : List String

-- The validators of `AgentResult`.
unfoldable pub valid_result : AgentResult → Bool
unfolding is_blank valid_source_ids
valid_result r =
    str_eq r.schema_version "1.0.0"
    && (leb 1 (text_length r.text)
        && (leb (text_length r.text) 32000
            && (not (is_blank (codes r.text)) && valid_source_ids r.source_ids)))

-- What a Runtime hands over: something with the fields of a result, or not.
pub data RawResult : Type 0 where
  shaped : AgentResult → RawResult
  misshaped : RawResult

abbrev refuse : PolicyViolation → Policy AgentResult
refuse v s = (err v, record s { result_validation = ResultValidation.failed })

-- `source_policy`, with the successful Tool calls and the cited sources
unfoldable pub lacks_sources : SourcePolicy → ℕ → List String → Bool
lacks_sources no_sources calls ids = false
lacks_sources required_if_tool_used calls ids = ltb 0 calls && is_empty ids
lacks_sources required calls ids = is_empty ids

abbrev differs : Option String → String → Bool
differs none t = false
differs (some r) t = not (str_eq r t)

judge_result : RunConfig → Option String → AgentResult → Policy AgentResult
judge_result c runtime_text r s =
    if not (str_eq r.schema_version c.agent.result_contract.schema_version)
    then refuse result_refused s
    else if ltb c.agent.result_contract.max_answer_chars (text_length r.text)
    then refuse result_refused s
    else if differs runtime_text r.text
    then refuse result_refused s
    else if any (λ id. not (contains id s.persisted_sources)) r.source_ids
    then refuse sources_refused s
    else if s.tool_calls_succeeded == 0 && not (is_empty r.source_ids)
    then refuse sources_refused s
    else if lacks_sources c.agent.result_contract.source_policy s.tool_calls_succeeded r.source_ids
    then refuse sources_refused s
    else (ok r, record s { result_validation = passed; result_source_ids = r.source_ids })

unfoldable pub validate_result : RunConfig → RawResult → Option String → Policy AgentResult
unfolding judge_result lacks_sources
validate_result c misshaped runtime_text s = refuse result_refused s
validate_result c (shaped r) runtime_text s =
    if valid_result r then judge_result c runtime_text r s else refuse result_refused s

unfoldable pub record_result_validation_failure : RunExecution → RunExecution
record_result_validation_failure s = record s {
  result_validation = ResultValidation.failed;
  result_source_ids = [];
}

unfoldable pub usage : ℕ → RunExecution → BudgetUsageEvidence
usage now s = record {
  model_steps = s.model_steps;
  tool_calls_attempted = s.tool_calls_attempted;
  tool_calls_succeeded = s.tool_calls_succeeded;
  repeated_tool_calls = s.repeated_tool_calls;
  no_progress_steps = s.consecutive_no_progress;
  elapsed_ms = (now - s.started_at) / 1000;
}

unfoldable pub outcome :
    RunConfig
    → ℕ
    → OutcomeStatus
    → String
    → Option RunFailureCode
    → Bool
    → RunExecution
    → Result EvidenceFault ExecutionOutcomeEvidence
unfolding usage build_outcome
outcome c now status stop_reason failure_code usage_known s = build_outcome (record {
  status = status;
  stop_reason = stop_reason;
  failure_code = failure_code;
  usage = if usage_known then some (usage now s) else none;
  accepted_source_ids = s.persisted_source_order;
  result_source_ids = s.result_source_ids;
  result_schema_version =
      if is_not_run s.result_validation then none else some c.agent.result_contract.schema_version;
  result_validation = s.result_validation;
})
