-- ===== src/Policy/Violation.antt =====
-- `PolicyViolation` and its subclasses (backend/src/work_assistant/execution_policy.py), with the
-- failure codes of backend/src/work_assistant/schemas.py.
use work_assistant_agent.Prelude.{String}

pub data RunFailureCode : Type 0 where
  run_timeout agent_execution_failed service_restarted model_step_limit tool_call_limit :
      RunFailureCode
  repeated_tool_call no_progress tool_not_allowed result_schema_invalid source_validation_failed :
      RunFailureCode

pub data PolicyViolation : Type 0 where
  model_step_limit_exceeded tool_call_limit_exceeded repeated_call no_progress_made tool_denied :
      PolicyViolation
  result_refused sources_refused deadline_exceeded : PolicyViolation
  execution_failed : String → PolicyViolation

unfoldable pub failure_code : PolicyViolation → RunFailureCode
failure_code model_step_limit_exceeded = model_step_limit
failure_code tool_call_limit_exceeded = tool_call_limit
failure_code repeated_call = repeated_tool_call
failure_code no_progress_made = no_progress
failure_code tool_denied = tool_not_allowed
failure_code result_refused = result_schema_invalid
failure_code sources_refused = source_validation_failed
failure_code deadline_exceeded = run_timeout
failure_code (execution_failed _) = agent_execution_failed

unfoldable pub stop_reason : PolicyViolation → String
stop_reason model_step_limit_exceeded = "model_step_limit"
stop_reason tool_call_limit_exceeded = "tool_call_limit"
stop_reason repeated_call = "repeated_tool_call"
stop_reason no_progress_made = "no_progress"
stop_reason tool_denied = "tool_not_allowed"
stop_reason result_refused = "result_schema_invalid"
stop_reason sources_refused = "source_validation_failed"
stop_reason deadline_exceeded = "run_timeout"
stop_reason (execution_failed reason) = reason
