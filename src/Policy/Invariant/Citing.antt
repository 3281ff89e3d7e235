-- ===== src/Policy/Invariant/Citing.antt =====
-- The results in a `RunExecution`: what the last one that passed cites was confirmed as durable, and
-- nothing is cited before the first is judged. A result that is refused later leaves the citations.
use work_assistant_agent.Prelude.{
  ℕ, ◌≡◌, refl, true, false, not, String, Option, none, some, List, [], ◌∷◌, arith, str_eq,
  Bool-cases, Result-cases, inl, inr, contains, is_subset, any, add, contains-add, ◌∙◌,
}
use work_assistant_agent.Capabilities.Values.{Fields, get_text}
use work_assistant_agent.Capabilities.Tools.{
  ToolSource, ToolMessage, ParsedToolOutcome, RegisteredTool,
}
use work_assistant_agent.Policy.State.{
  RunConfig, RunExecution, ResultValidation, ProductEvent, record_progress, ensure_deadline,
  new_execution,
}
use work_assistant_agent.Policy.Reserve.{
  ToolCall, ScanEnd, scanned, refused, repeats, finish_scan, reserve_admitted, reserve_tool_calls,
}
use work_assistant_agent.Policy.Steps.{
  before_model_call, after_model_response, record_finalizer_signal, note_messages, after_notes,
}
use work_assistant_agent.Policy.Steps.Messages.{BaseMessage, ai, not_ai, content_text}
use work_assistant_agent.Policy.Calls.{
  begin_tool_call, add_source, add_sources, close_call, finish_tool_call,
}
use work_assistant_agent.Policy.Events.{
  add_named, confirm, accept_runtime_event, validate_runtime_event,
}
use work_assistant_agent.Policy.Evidence.{is_not_run, valid_source_ids}
use work_assistant_agent.Policy.Results.{
  AgentResult, RawResult, shaped, misshaped, valid_result, validate_result,
  record_result_validation_failure,
}

pub record Verdict : Type 0 where
  pub result_validation : ResultValidation
  pub result_source_ids : List String
  pub persisted_sources : List String

abbrev pub verdict : RunExecution → Verdict
verdict s = record {
  result_validation = s.result_validation;
  result_source_ids = s.result_source_ids;
  persisted_sources = s.persisted_sources;
}

pub record IsCited (r : Verdict) : Type 0 where
  pub unjudged : is_not_run r.result_validation ≡ true → r.result_source_ids ≡ []
  pub cited : is_subset r.result_source_ids r.persisted_sources ≡ true
  pub sized : valid_source_ids r.result_source_ids ≡ true

verdict-record_progress :
    (f : String) (s : RunExecution) → verdict (record_progress f s) ≡ verdict s
unfolding record_progress
verdict-record_progress f s = ground arith

pub verdict-before_model_call :
    (c : RunConfig) (now : ℕ) (s : RunExecution) → verdict (before_model_call c now s).1 ≡ verdict s
unfolding before_model_call
verdict-before_model_call c now s = ground arith

pub verdict-record_finalizer_signal :
    (now : ℕ) (s : RunExecution) → verdict (record_finalizer_signal now s).1 ≡ verdict s
unfolding record_finalizer_signal
verdict-record_finalizer_signal now s = ground arith

verdict-finish_scan : (e : ScanEnd) (s : RunExecution) → verdict (finish_scan e s).1 ≡ verdict s
unfolding finish_scan
verdict-finish_scan (scanned sc) s = refl
verdict-finish_scan (refused v) s = refl
verdict-finish_scan (repeats sc) s = refl

verdict-reserve_admitted :
    (c : RunConfig) (calls : List ToolCall) (s : RunExecution)
    → verdict (reserve_admitted c calls s).1 ≡ verdict s
verdict-reserve_admitted c calls s =
    unfold reserve_admitted in
    ground (arith, λ (e : ScanEnd) (t : RunExecution). verdict-finish_scan e t)

verdict-note_messages :
    (c : RunConfig) (messages : List BaseMessage) (s : RunExecution)
    → verdict (note_messages c messages s).1 ≡ verdict s
unfolding note_messages
verdict-note_messages c [] s = refl
verdict-note_messages c (not_ai ∷ messages) s = verdict-note_messages c messages s
verdict-note_messages c (ai content calls ∷ messages) s =
    elim (Bool-cases (str_eq (content_text content) "")) [
      | inl e ↦ rw e (verdict-note_messages c messages s)
      | inr e ↦ rw e (verdict-note_messages c messages _ ∙ verdict-record_progress _ s)
    ]

verdict-add_source :
    (call : String) (source : ToolSource) (s : RunExecution)
    → verdict (add_source call source s).1 ≡ verdict s
unfolding add_source record_progress
verdict-add_source call source s = ground arith

verdict-add_sources :
    (call : String) (sources : List ToolSource) (s : RunExecution)
    → verdict (add_sources call sources s).1 ≡ verdict s
unfolding add_sources
verdict-add_sources call [] s = refl
verdict-add_sources call (source ∷ sources) s =
    verdict-add_sources call sources (add_source call source s).1 ∙ verdict-add_source call source s

pub verdict-begin_tool_call :
    (c : RunConfig) (now : ℕ) (id tool_id : String) (arguments : Fields) (s : RunExecution)
    → verdict (begin_tool_call c now id tool_id arguments s).1 ≡ verdict s
unfolding begin_tool_call
verdict-begin_tool_call c now id tool_id arguments s = ground arith

verdict-close_call :
    (c : RunConfig) (id tool_id : String) (outcome : ParsedToolOutcome) (tool : RegisteredTool)
    (s : RunExecution)
    → verdict (close_call c id tool_id outcome tool s).1 ≡ verdict s
unfolding close_call
verdict-close_call c id tool_id outcome tool s =
    verdict-add_sources id outcome.sources _ ∙ verdict-record_progress _ _

pub verdict-finish_tool_call :
    (c : RunConfig) (now : ℕ) (id tool_id : String) (message : ToolMessage) (s : RunExecution)
    → verdict (finish_tool_call c now id tool_id message s).1 ≡ verdict s
unfolding finish_tool_call
verdict-finish_tool_call c now id tool_id message s = grind (arith, verdict-close_call)

pub verdict-reserve_tool_calls :
    (c : RunConfig) (now : ℕ) (calls : List ToolCall) (s : RunExecution)
    → verdict (reserve_tool_calls c now calls s).1 ≡ verdict s
verdict-reserve_tool_calls c now [] s = unfold reserve_tool_calls in ground arith
verdict-reserve_tool_calls c now (call ∷ calls) s =
    unfold reserve_tool_calls ensure_deadline in
    ground (arith, verdict-reserve_admitted c (call ∷ calls) s)

verdict-after_notes :
    (c : RunConfig) (now : ℕ) (r : List ToolCall × RunExecution)
    → verdict (after_notes c now r).1 ≡ verdict r.1
unfolding after_notes
verdict-after_notes c now ([], s) = refl
verdict-after_notes c now (call ∷ calls, s) = verdict-reserve_tool_calls c now (call ∷ calls) s

pub verdict-after_model_response :
    (c : RunConfig) (now : ℕ) (messages : List BaseMessage) (s : RunExecution)
    → verdict (after_model_response c now messages s).1 ≡ verdict s
unfolding after_model_response
verdict-after_model_response c now messages s =
    verdict-after_notes c now (note_messages c messages s) ∙ verdict-note_messages c messages s

pub new_execution-IsCited :
    (c : RunConfig) (now later : ℕ) → IsCited (verdict (new_execution c now later))
unfolding new_execution valid_source_ids
new_execution-IsCited c now later = record { unjudged = λ h. refl; cited = refl; sized = refl }

subset-add :
    (id : String) (xs ys : List String) → is_subset xs ys ≡ true → is_subset xs (add id ys) ≡ true
subset-add id [] ys h = refl
subset-add id (x ∷ xs) ys h = ground (arith, subset-add id xs ys, contains-add x id ys)

source_named :
    (o : Option String) (r : Verdict)
    → IsCited r
    → IsCited (record r { persisted_sources = add_named o r.persisted_sources })
source_named none r v = v
source_named (some id) r v = record {
  unjudged = v.unjudged;
  cited = subset-add id r.result_source_ids r.persisted_sources v.cited;
  sized = v.sized;
}

confirm-IsCited :
    (now : ℕ) (e : ProductEvent) (s : RunExecution)
    → IsCited (verdict s)
    → IsCited (verdict (confirm now e s))
unfolding confirm
confirm-IsCited now e s v = elim (Bool-cases (str_eq e.type "message.delta")) [
  | inl delta ↦ rw (delta, confirm) v
  | inr d ↦ elim (Bool-cases (str_eq e.type "tool.started")) [
    | inl start ↦ rw (d, start, confirm) v
    | inr st ↦ elim (Bool-cases (str_eq e.type "tool.finished")) [
      | inl finish ↦ rw (d, st, finish, confirm) v
      | inr f ↦ rw (d, st, f, confirm) (source_named (get_text "source_id" e.payload) (verdict s) v)
    ]
  ]
]

pub accept_runtime_event-IsCited :
    (now : ℕ) (e : ProductEvent) (s : RunExecution)
    → IsCited (verdict s)
    → IsCited (verdict (accept_runtime_event now e s).1)
unfolding accept_runtime_event
accept_runtime_event-IsCited now e s v = elim (Result-cases (validate_runtime_event e s)) [
  | inl (x, bad) ↦ rw (bad, accept_runtime_event) v
  | inr (t, good) ↦ rw (good, accept_runtime_event) (confirm-IsCited now e s v)
]

any-not-subset :
    (xs ys : List String) → any (λ id. not (contains id ys)) xs ≡ false → is_subset xs ys ≡ true
any-not-subset [] ys h = refl
any-not-subset (x ∷ xs) ys h = ground (arith, any-not-subset xs ys)

valid_result-sources :
    (r : AgentResult) → valid_result r ≡ true → valid_source_ids r.source_ids ≡ true
unfolding valid_result
valid_result-sources r h = ground arith

pub validate_result-IsCited :
    (c : RunConfig) (raw : RawResult) (runtime_text : Option String) (s : RunExecution)
    → IsCited (verdict s)
    → IsCited (verdict (validate_result c raw runtime_text s).1)
unfolding validate_result
validate_result-IsCited c misshaped runtime_text s v = record {
  unjudged = λ h. absurd (ground (arith, h));
  cited = v.cited;
  sized = v.sized;
}
validate_result-IsCited c (shaped r) runtime_text s v = record {
  unjudged = λ h. absurd (ground (arith, h));
  cited = ground (arith, v.cited, any-not-subset r.source_ids s.persisted_sources);
  sized = ground (arith, v.sized, valid_result-sources r);
}

pub record_result_validation_failure-IsCited :
    (s : RunExecution) → IsCited (verdict (record_result_validation_failure s))
unfolding record_result_validation_failure valid_source_ids
record_result_validation_failure-IsCited s = record {
  unjudged = λ h. refl;
  cited = refl;
  sized = refl;
}
