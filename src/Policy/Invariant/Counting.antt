-- ===== src/Policy/Invariant/Counting.antt =====
-- The methods that leave the calls and sources alone, and `after_model_response`.
use work_assistant_agent.Prelude.{
  ℕ, ◌≡◌, refl, String, Option, List, [], ◌∷◌, arith, str_eq, Bool-cases, inl, inr, ◌∙◌,
}
use work_assistant_agent.Policy.State.{RunConfig, RunExecution, record_progress}
use work_assistant_agent.Policy.Reserve.{ToolCall}
use work_assistant_agent.Policy.Steps.{
  before_model_call, after_model_response, record_finalizer_signal, note_messages, after_notes,
}
use work_assistant_agent.Policy.Steps.Messages.{BaseMessage, ai, not_ai, content_text}
use work_assistant_agent.Policy.Results.{
  RawResult, shaped, misshaped, validate_result, record_result_validation_failure,
}
use work_assistant_agent.Policy.Invariant.{book, IsValid}
use work_assistant_agent.Policy.Invariant.Reserving.{reserve_tool_calls-IsValid}

pub book-record_progress : (f : String) (s : RunExecution) → book (record_progress f s) ≡ book s
unfolding record_progress
book-record_progress f s = ground arith

pub book-before_model_call :
    (c : RunConfig) (now : ℕ) (s : RunExecution) → book (before_model_call c now s).1 ≡ book s
unfolding before_model_call
book-before_model_call c now s = ground arith

pub book-record_finalizer_signal :
    (now : ℕ) (s : RunExecution) → book (record_finalizer_signal now s).1 ≡ book s
unfolding record_finalizer_signal
book-record_finalizer_signal now s = ground arith

pub book-validate_result :
    (c : RunConfig) (raw : RawResult) (runtime_text : Option String) (s : RunExecution)
    → book (validate_result c raw runtime_text s).1 ≡ book s
unfolding validate_result
book-validate_result c misshaped runtime_text s = refl
book-validate_result c (shaped r) runtime_text s = ground arith

pub book-record_result_validation_failure :
    (s : RunExecution) → book (record_result_validation_failure s) ≡ book s
unfolding record_result_validation_failure
book-record_result_validation_failure s = refl

book-note_messages :
    (c : RunConfig) (messages : List BaseMessage) (s : RunExecution)
    → book (note_messages c messages s).1 ≡ book s
unfolding note_messages
book-note_messages c [] s = refl
book-note_messages c (not_ai ∷ messages) s = book-note_messages c messages s
book-note_messages c (ai content calls ∷ messages) s =
    elim (Bool-cases (str_eq (content_text content) "")) [
      | inl e ↦ rw e (book-note_messages c messages s)
      | inr e ↦ rw e (book-note_messages c messages _ ∙ book-record_progress _ s)
    ]

after_notes-IsValid :
    (c : RunConfig) (now : ℕ) (r : List ToolCall × RunExecution)
    → IsValid c.agent.budget.max_tool_calls (book r.1)
    → IsValid c.agent.budget.max_tool_calls (book (after_notes c now r).1)
unfolding after_notes
after_notes-IsValid c now ([], s) v = v
after_notes-IsValid c now (call ∷ calls, s) v = reserve_tool_calls-IsValid c now (call ∷ calls) s v

pub after_model_response-IsValid :
    (c : RunConfig) (now : ℕ) (messages : List BaseMessage) (s : RunExecution)
    → IsValid c.agent.budget.max_tool_calls (book s)
    → IsValid c.agent.budget.max_tool_calls (book (after_model_response c now messages s).1)
unfolding after_model_response
after_model_response-IsValid c now messages s v =
    after_notes-IsValid c now (note_messages c messages s) (rw (book-note_messages c messages s) v)
