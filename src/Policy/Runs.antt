-- ===== src/Policy/Runs.antt =====
-- The histories of a `RunExecution`: its methods in any order, each with a reading of the clock.
use work_assistant_agent.Prelude.{
  ℕ, ◌≤◌, ◌≡◌, refl, true, String, Option, List, [], ◌∷◌, arith, length, contains, is_subset,
  length-le_of_subset, ◌∙◌, sym, eq_iff,
}
use work_assistant_agent.Prelude.Dict.{Dict, keys, has_key, contains-keys, length-keys}
use work_assistant_agent.Capabilities.Values.{Fields}
use work_assistant_agent.Capabilities.Tools.{ToolMessage}
use work_assistant_agent.Usage.Ledger.Runs as Metering
use work_assistant_agent.Usage.Ledger.Types.{RunUsageLedger}
use work_assistant_agent.Policy.State.{RunConfig, RunExecution, ProductEvent, new_execution}
use work_assistant_agent.Policy.Reserve.{ToolCall, reserve_tool_calls}
use work_assistant_agent.Policy.Steps.{
  before_model_call, after_model_response, record_finalizer_signal,
}
use work_assistant_agent.Policy.Steps.Messages.{BaseMessage}
use work_assistant_agent.Policy.Calls.{begin_tool_call, finish_tool_call}
use work_assistant_agent.Policy.Events.{accept_runtime_event}
use work_assistant_agent.Policy.Results.{
  RawResult, validate_result, record_result_validation_failure,
}
use work_assistant_agent.Policy.Invariant.{book, IsValid, new_execution-IsValid}
use work_assistant_agent.Policy.Invariant.Counting.{
  book-before_model_call, book-record_finalizer_signal, book-validate_result,
  book-record_result_validation_failure, after_model_response-IsValid,
}
use work_assistant_agent.Policy.Invariant.Reserving.{reserve_tool_calls-IsValid}
use work_assistant_agent.Policy.Invariant.Calling.{
  begin_tool_call-IsValid, finish_tool_call-IsValid,
}
use work_assistant_agent.Policy.Invariant.Confirming.{accept_runtime_event-IsValid}
use work_assistant_agent.Policy.Invariant.Citing.{
  verdict, IsCited, new_execution-IsCited, verdict-before_model_call, verdict-after_model_response,
  verdict-record_finalizer_signal, verdict-reserve_tool_calls, verdict-begin_tool_call,
  verdict-finish_tool_call, accept_runtime_event-IsCited, validate_result-IsCited,
  record_result_validation_failure-IsCited,
}

module _ (c : RunConfig) where
  pub data Step (s : RunExecution) : RunExecution → Type 0 where
    calls_model : (now : ℕ) → Step s (before_model_call c now s).1
    hears_model :
        (now : ℕ) (messages : List BaseMessage) → Step s (after_model_response c now messages s).1
    signals : (now : ℕ) → Step s (record_finalizer_signal now s).1
    reserves : (now : ℕ) (calls : List ToolCall) → Step s (reserve_tool_calls c now calls s).1
    begins :
        (now : ℕ) (id tool_id : String) (arguments : Fields)
        → Step s (begin_tool_call c now id tool_id arguments s).1
    finishes :
        (now : ℕ) (id tool_id : String) (message : ToolMessage)
        → Step s (finish_tool_call c now id tool_id message s).1
    accepts : (now : ℕ) (e : ProductEvent) → Step s (accept_runtime_event now e s).1
    validates :
        (raw : RawResult) (runtime_text : Option String)
        → Step s (validate_result c raw runtime_text s).1
    rejects : Step s (record_result_validation_failure s)
    meters :
        {l : RunUsageLedger}
        → Metering.Step s.provider_usage l
        → Step s (record s { provider_usage = l })

  pub data Reach (s : RunExecution) : RunExecution → Type 0 where
    here : Reach s s
    next : {t u : RunExecution} → Reach s t → Step t u → Reach s u

  Step-IsValid :
      {s t : RunExecution}
      → Step s t
      → IsValid c.agent.budget.max_tool_calls (book s)
      → IsValid c.agent.budget.max_tool_calls (book t)
  Step-IsValid {s} (calls_model now) v = rw (book-before_model_call c now s) v
  Step-IsValid {s} (hears_model now messages) v = after_model_response-IsValid c now messages s v
  Step-IsValid {s} (signals now) v = rw (book-record_finalizer_signal now s) v
  Step-IsValid {s} (reserves now calls) v = reserve_tool_calls-IsValid c now calls s v
  Step-IsValid {s} (begins now id tool_id arguments) v =
      begin_tool_call-IsValid c id tool_id s v now arguments
  Step-IsValid {s} (finishes now id tool_id message) v =
      finish_tool_call-IsValid c id tool_id s v now message
  Step-IsValid {s} (accepts now e) v =
      accept_runtime_event-IsValid c.agent.budget.max_tool_calls now e s v
  Step-IsValid {s} (validates raw runtime_text) v = rw (book-validate_result c raw runtime_text s) v
  Step-IsValid {s} rejects v = rw (book-record_result_validation_failure s) v
  Step-IsValid (meters m) v = v

  Step-IsCited : {s t : RunExecution} → Step s t → IsCited (verdict s) → IsCited (verdict t)
  Step-IsCited {s} (calls_model now) v = rw (verdict-before_model_call c now s) v
  Step-IsCited {s} (hears_model now messages) v =
      rw (verdict-after_model_response c now messages s) v
  Step-IsCited {s} (signals now) v = rw (verdict-record_finalizer_signal now s) v
  Step-IsCited {s} (reserves now calls) v = rw (verdict-reserve_tool_calls c now calls s) v
  Step-IsCited {s} (begins now id tool_id arguments) v =
      rw (verdict-begin_tool_call c now id tool_id arguments s) v
  Step-IsCited {s} (finishes now id tool_id message) v =
      rw (verdict-finish_tool_call c now id tool_id message s) v
  Step-IsCited {s} (accepts now e) v = accept_runtime_event-IsCited now e s v
  Step-IsCited {s} (validates raw runtime_text) v = validate_result-IsCited c raw runtime_text s v
  Step-IsCited {s} rejects v = record_result_validation_failure-IsCited s
  Step-IsCited (meters m) v = v

  Reach-book :
      {s t : RunExecution}
      → Reach s t
      → IsValid c.agent.budget.max_tool_calls (book s)
      → IsValid c.agent.budget.max_tool_calls (book t)
  Reach-book here v = v
  Reach-book (next r st) v = Step-IsValid st (Reach-book r v)

  Reach-verdict : {s t : RunExecution} → Reach s t → IsCited (verdict s) → IsCited (verdict t)
  Reach-verdict here v = v
  Reach-verdict (next r st) v = Step-IsCited st (Reach-verdict r v)

  -- Whatever methods are called on a new execution, in whatever order and whether they return or
  -- raise: calls are reserved within the budget, started only if reserved and at most once, finished
  -- only if started, and confirmed as durable in that order; the confirmed sources have no
  -- repetition, and each was produced by a Tool.
  pub Reach-IsValid :
      (now later : ℕ) {s : RunExecution}
      → Reach (new_execution c now later) s
      → IsValid c.agent.budget.max_tool_calls (book s)
  Reach-IsValid now later r = Reach-book r (new_execution-IsValid c now later)

  -- Whatever is called, and however often results are validated, the last result that passed cites
  -- only sources that were confirmed as durable, none twice, and while no result was judged nothing
  -- is cited.
  pub Reach-IsCited :
      (now later : ℕ) {s : RunExecution} → Reach (new_execution c now later) s → IsCited (verdict s)
  Reach-IsCited now later r = Reach-verdict r (new_execution-IsCited c now later)

keys_subset :
    {W : Type 0} (xs : List String) (e : Dict W)
    → ((k : String) → contains k xs ≡ true → has_key k e ≡ true)
    → is_subset xs (keys e) ≡ true
keys_subset [] e h = refl
keys_subset (x ∷ xs) e h =
    let here = contains-keys x e ∙ h x (ground (arith, eq_iff x x)) in
    let rest = keys_subset xs e (λ k m. h k (ground (arith, m))) in ground (arith, here, rest)

-- Whatever is called, and with whatever budget the Agent has, no more Tool calls are started than
-- its budget allows.
pub Reach-started_within :
    (c : RunConfig) (now later : ℕ) {s : RunExecution}
    → Reach c (new_execution c now later) s
    → length s.started_calls ≤ c.agent.budget.max_tool_calls
Reach-started_within c now later {s} r =
    let v = Reach-IsValid c now later r in
    let sub =
      keys_subset (keys s.started_calls) s.reservations
        (λ k m. v.started_reserved k (sym (contains-keys k s.started_calls) ∙ m)) in
    let count =
      length-le_of_subset (keys s.started_calls) (keys s.reservations) v.started_once sub in
    omega (arith, count, v.reserved, length-keys s.started_calls, length-keys s.reservations)
