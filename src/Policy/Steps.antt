-- ===== src/Policy/Steps.antt =====
-- The model steps of `RunExecution` (backend/src/work_assistant/execution_policy.py).
pub mod Messages
use Prim.Native.String.{◌++◌}
use Messages.{BaseMessage, ai, not_ai, Content, content_text}
use work_assistant_agent.Prelude.{
  ℕ, ◌+◌, Bool, true, false, String, List, [], ◌∷◌, ◌++◌ as join, Result, ok, err, ◌>>=◌, ◌>>◌, ltb,
  leb, ◌==◌, str_eq, if◌then◌else◌,
}
use work_assistant_agent.Policy.Violation.{
  PolicyViolation, model_step_limit_exceeded, no_progress_made,
}
use work_assistant_agent.Policy.State.{
  RunConfig, RunExecution, Policy, ensure_deadline, record_progress,
}
use work_assistant_agent.Policy.Reserve.{ToolCall, reserve_tool_calls}

count_step : RunConfig → Policy (Unit {0})
count_step c s =
    let next : RunExecution = record s {
      last_model_progress_revision = s.progress_revision;
      model_steps = s.model_steps + 1;
    } in
    if ltb c.agent.budget.max_model_steps next.model_steps
    then (err model_step_limit_exceeded, next)
    else (ok tt, next)

stall : RunConfig → Policy (Unit {0})
stall c s =
    let stalled : RunExecution = record s {
      consecutive_no_progress = s.consecutive_no_progress + 1;
    } in
    if leb c.agent.budget.max_no_progress_steps stalled.consecutive_no_progress
    then (err no_progress_made, stalled)
    else (ok tt, stalled)

judge_progress : RunConfig → Policy (Unit {0})
unfolding stall
judge_progress c s =
    if ltb 0 s.model_steps
    then if s.progress_revision == s.last_model_progress_revision
      then stall c s
      else (ok tt, record s { consecutive_no_progress = 0 })
    else (ok tt, s)

unfoldable pub before_model_call : RunConfig → ℕ → Policy (Unit {0})
unfolding ensure_deadline judge_progress count_step
before_model_call c now = ensure_deadline now >> judge_progress c >> count_step c

-- The loop of `after_model_response` over the messages: their progress, and their Tool calls.
unfoldable pub note_messages :
    RunConfig → List BaseMessage → RunExecution → List ToolCall × RunExecution
note_messages c [] s = ([], s)
note_messages c (not_ai ∷ messages) s = note_messages c messages s
note_messages c (ai content calls ∷ messages) s =
    let text : String = content_text content in
    let s' : RunExecution =
      if str_eq text "" then s else record_progress ("assistant:" ++ c.sha256 text) s in
    let (more, s'') = note_messages c messages s' in (join calls more, s'')

unfoldable pub after_notes :
    RunConfig → ℕ → List ToolCall × RunExecution → Result PolicyViolation (Unit {0}) × RunExecution
after_notes c now ([], s) = (ok tt, s)
after_notes c now (call ∷ calls, s) = reserve_tool_calls c now (call ∷ calls) s

unfoldable pub after_model_response : RunConfig → ℕ → List BaseMessage → Policy (Unit {0})
unfolding note_messages after_notes content_text record_progress
after_model_response c now messages s = after_notes c now (note_messages c messages s)

unfoldable pub record_finalizer_signal : ℕ → Policy (Unit {0})
unfolding ensure_deadline record_progress
record_finalizer_signal now =
    ensure_deadline now >> λ s. (ok tt, record_progress "host-control:finalize-answer" s)
