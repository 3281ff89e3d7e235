-- ===== src/Policy/Execute.antt =====
-- `execute_tool_call` of backend/src/work_assistant/execution_policy.py. The handler of the Tool and
-- the emission of an event are the caller's, and may change the execution while they are awaited.
pub mod Emits
pub mod Sources
pub mod Ends
use work_assistant_agent.Prelude.{ℕ, String, List, [], ◌∷◌, ok, err, ◌>>=◌, ◌>>◌}
use work_assistant_agent.Capabilities.Values.{Fields}
use work_assistant_agent.Capabilities.Tools.{ToolMessage}
use work_assistant_agent.Policy.Violation.{PolicyViolation, execution_failed}
use work_assistant_agent.Policy.State.{RunConfig, RunExecution, ProductEvent, Policy}
use work_assistant_agent.Policy.Calls.{begin_tool_call, finish_tool_call}

-- How the handler ends: with a message, with something else, with a violation, or with another
-- exception.
pub data HandlerEnd : Type 0 where
  answered : ToolMessage → HandlerEnd
  answered_other : HandlerEnd
  violated : PolicyViolation → HandlerEnd
  raised : HandlerEnd

abbrev pub message_of : HandlerEnd → Policy ToolMessage
message_of (answered message) s = (ok message, s)
message_of answered_other s = (err (execution_failed "tool_result_type_invalid"), s)
message_of (violated v) s = (err v, s)
message_of raised s = (err (execution_failed "tool_execution_failed"), s)

-- `for event in ...: await emit(event)`
unfoldable pub emit_each :
    (ProductEvent → Policy (Unit {0})) → List ProductEvent → Policy (Unit {0})
emit_each emit [] s = (ok tt, s)
emit_each emit (e ∷ events) s = (emit e >> emit_each emit events) s

-- The part after the start: `start` and `end` are the clock's readings of the two methods.
unfoldable pub after_start :
    RunConfig
    → ℕ
    → String
    → String
    → (Fields → RunExecution → HandlerEnd × RunExecution)
    → (ProductEvent → Policy (Unit {0}))
    → Fields × ProductEvent
    → Policy ToolMessage
unfolding emit_each
after_start c end tool_call_id tool_id handler emit (validated, started) = do
  emit started
  message ← λ s. let (r, t) = handler validated s in message_of r t
  events ← finish_tool_call c end tool_call_id tool_id message
  emit_each emit events
  λ s. (ok message, s)

unfoldable pub execute_tool_call :
    RunConfig
    → (start end : ℕ) → String
    → String
    → Fields
    → (Fields → RunExecution → HandlerEnd × RunExecution)
    → (ProductEvent → Policy (Unit {0}))
    → Policy ToolMessage
unfolding after_start
execute_tool_call c start end tool_call_id tool_id arguments handler emit =
    begin_tool_call c start tool_call_id tool_id arguments
    >>= after_start c end tool_call_id tool_id handler emit
