-- ===== src/Policy/Events.antt =====
-- `validate_runtime_event` and `accept_runtime_event` of `RunExecution`
-- (backend/src/work_assistant/execution_policy.py).
use work_assistant_agent.Prelude.{
  ℕ, Bool, false, ◌&&◌, not, String, Option, none, some, List, [], ◌∷◌, ◌++◌, Result, ok, err,
  contains, any, add, str_eq, if◌then◌else◌,
}
use work_assistant_agent.Prelude.Dict.{Dict, lookup}
use work_assistant_agent.Capabilities.Values.{Fields, get_text, same_fields}
use work_assistant_agent.Usage.Ledger.{record_first_visible}
use work_assistant_agent.Policy.Violation.{
  PolicyViolation, tool_denied, execution_failed, sources_refused,
}
use work_assistant_agent.Policy.State.{RunExecution, ProductEvent, Policy}

-- The dict's entry for a key that the event names. A key that is no text is in no dict here.
abbrev pub named {ℓ} : {V : Type ℓ} → Option String → Dict V → Option V
named none d = none
named (some k) d = lookup k d

abbrev pub holds : Option String → List String → Bool
holds none ids = false
holds (some k) ids = contains k ids

-- `expected is not None and expected[1] == event.data`
abbrev pub is_expected {ℓ} : {A : Type ℓ} → Option (A × Fields) → Fields → Bool
is_expected none d = false
is_expected (some e) d = same_fields e.1 d

-- `expected_source[0].intersection(self._persisted_finished)` is not empty
abbrev pub is_backed : Option (List String × Fields) → List String → Bool
is_backed none finished = false
is_backed (some e) finished = any (λ id. contains id finished) e.0

unfoldable pub validate_started : ProductEvent → RunExecution → Bool
validate_started e s =
    let id = get_text "tool_call_id" e.payload in
    is_expected (named id s.started_calls) e.payload && not (holds id s.persisted_started)

unfoldable pub validate_finished : ProductEvent → RunExecution → Bool
validate_finished e s =
    let id = get_text "tool_call_id" e.payload in
    is_expected (named id s.finished_calls) e.payload
    && (holds id s.persisted_started && not (holds id s.persisted_finished))

unfoldable pub validate_source : ProductEvent → RunExecution → Bool
validate_source e s =
    let id = get_text "source_id" e.payload in
    is_expected (named id s.source_events) e.payload
    && (is_backed (named id s.source_events) s.persisted_finished
        && not (holds id s.persisted_sources))

unfoldable pub validate_runtime_event :
    ProductEvent → RunExecution → Result PolicyViolation (Unit {0})
unfolding validate_started validate_finished validate_source
validate_runtime_event e s =
    if str_eq e.type "message.delta"
    then ok tt
    else if str_eq e.type "tool.started"
    then (if validate_started e s then ok tt else err tool_denied)
    else if str_eq e.type "tool.finished"
    then (if validate_finished e s then ok tt else err (execution_failed "tool_lifecycle_invalid"))
    else if str_eq e.type "source.added"
    then (if validate_source e s then ok tt else err sources_refused)
    else err (execution_failed "runtime_event_not_allowed")

-- `set.add` of an id that a validated event names
abbrev pub add_named : Option String → List String → List String
add_named none ids = ids
add_named (some k) ids = add k ids

abbrev pub append_named : Option String → List String → List String
append_named none ids = ids
append_named (some k) ids = ids ++ k ∷ []

unfoldable pub confirm : ℕ → ProductEvent → RunExecution → RunExecution
confirm now e s =
    if str_eq e.type "message.delta"
    then record s { provider_usage = record_first_visible now s.provider_usage }
    else if str_eq e.type "tool.started"
    then record s {
      persisted_started = add_named (get_text "tool_call_id" e.payload) s.persisted_started;
    }
    else if str_eq e.type "tool.finished"
    then record s {
      persisted_finished = add_named (get_text "tool_call_id" e.payload) s.persisted_finished;
    }
    else record s {
      persisted_sources = add_named (get_text "source_id" e.payload) s.persisted_sources;
      persisted_source_order =
          append_named (get_text "source_id" e.payload) s.persisted_source_order;
    }

-- The clock is read for the first visible text alone.
unfoldable pub accept_runtime_event : ℕ → ProductEvent → Policy (Unit {0})
unfolding validate_runtime_event confirm
accept_runtime_event now e s = elim (validate_runtime_event e s) [
  | err v ↦ (err v, s)
  | ok _ ↦ (ok tt, confirm now e s)
]
