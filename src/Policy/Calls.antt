-- ===== src/Policy/Calls.antt =====
-- The life of a Tool call in `RunExecution` (backend/src/work_assistant/execution_policy.py): its
-- start, its end, and the sources that it brings.
use Prim.Native.String.{◌++◌}
use work_assistant_agent.Prelude.{
  ℕ, ◌+◌, Bool, true, false, ◌||◌, ◌&&◌, not, String, Option, none, some, List, [], ◌∷◌,
  ◌++◌ as join, Result, ok, err, ◌>>◌, contains, add, str_eq, is_ok, if◌then◌else◌,
}
use work_assistant_agent.Prelude.Dict.{Dict, lookup, insert, has_key}
use work_assistant_agent.Prelude.Names.{take_text}
use work_assistant_agent.Capabilities.Values.{Fields, text, same_fields}
use work_assistant_agent.Capabilities.Tools.{
  ToolMessage, ToolSource, ParsedToolOutcome, RegisteredTool,
}
use work_assistant_agent.Capabilities.Registry.{
  canonicalize_call, enabled_tool_ids, parse_tool_message, require,
}
use work_assistant_agent.Capabilities.Decision.{decided}
use work_assistant_agent.Policy.Violation.{
  PolicyViolation, tool_denied, execution_failed, sources_refused,
}
use work_assistant_agent.Policy.State.{
  RunConfig, RunExecution, ToolReservation, ProductEvent, Policy, ensure_deadline, record_progress,
}

-- `_require_current_tool_permission` raises "tool_not_allowed" unless this holds.
unfoldable pub is_permitted : RunConfig → String → Bool
is_permitted c tool_id =
    elim (decided c.capability_policy c.principal c.agent (enabled_tool_ids c.tool_registry)) [
      | none ↦ false
      | some decision ↦
          str_eq decision.policy_id c.capability_decision.policy_id
          && (str_eq decision.policy_version c.capability_decision.policy_version
              && (contains tool_id decision.allowed_tools
                  && (contains tool_id c.visible_tool_ids
                      && (contains tool_id c.agent.allowed_tools
                          && (contains tool_id c.agent.base_tools
                              && is_ok (require c.tool_registry tool_id))))))
    ]

-- `if input_summary: data["input_summary"] = input_summary[:500]`
abbrev summary_field : Option String → Fields
summary_field none = []
summary_field (some s) = if str_eq s "" then [] else ("input_summary", text (take_text 500 s)) ∷ []

unfoldable pub started_data : String → String → RegisteredTool → Fields → Fields
started_data tool_call_id tool_id tool validated =
    ("tool_call_id", text tool_call_id)
    ∷ ("name", text tool_id)
    ∷ ("label", text tool.label)
    ∷ summary_field (tool.summarize_input validated)

-- The reservation that a call may use.
abbrev pub usable : String → String → RunExecution → Option ToolReservation
usable tool_call_id tool_id s = elim (lookup tool_call_id s.reservations) [
  | none ↦ none
  | some r ↦
      if not (str_eq r.tool_id tool_id) || has_key tool_call_id s.started_calls
      then none
      else some r
]

unfoldable pub open_call :
    RunConfig
    → String
    → String
    → Fields
    → String
    → ToolReservation
    → RunExecution
    → Result PolicyViolation (Fields × ProductEvent) × RunExecution
open_call c tool_call_id tool_id validated fingerprint reservation s =
    if not (str_eq fingerprint reservation.fingerprint)
      || not (same_fields validated reservation.validated_arguments)
    then (err tool_denied, s)
    else if not (is_permitted c tool_id)
    then (err tool_denied, s)
    else elim (require c.tool_registry tool_id) [
      | err e ↦ (err tool_denied, s)
      | ok tool ↦
          let event_data : Fields = started_data tool_call_id tool_id tool validated in
          (
            ok (validated, record { type = "tool.started"; payload = event_data }),
            record s { started_calls = insert tool_call_id (tool_id, event_data) s.started_calls },
          )
    ]

unfoldable pub begin_admitted :
    RunConfig → String → String → Fields → Policy (Fields × ProductEvent)
unfolding open_call
begin_admitted c tool_call_id tool_id arguments s = elim (usable tool_call_id tool_id s) [
  | none ↦ (err tool_denied, s)
  | some reservation ↦ elim (canonicalize_call c.fingerprint c.tool_registry tool_id arguments) [
    | err e ↦ (err (execution_failed "tool_arguments_invalid"), s)
    | ok (validated, fingerprint) ↦
        open_call c tool_call_id tool_id validated fingerprint reservation s
  ]
]

unfoldable pub begin_tool_call :
    RunConfig → ℕ → String → String → Fields → Policy (Fields × ProductEvent)
unfolding ensure_deadline begin_admitted
begin_tool_call c now tool_call_id tool_id arguments =
    ensure_deadline now >> begin_admitted c tool_call_id tool_id arguments

-- `source.model_dump(mode="json")`
unfoldable pub source_data : ToolSource → Fields
source_data s =
    ("source_id", text s.source_id)
    ∷ ("label", text s.label)
    ∷ ("description", text s.description)
    ∷ []

-- A source id that stands for other data already.
unfoldable pub conflicts : Dict (List String × Fields) → List ToolSource → Bool
conflicts events [] = false
conflicts events (s ∷ sources) =
    elim (lookup s.source_id events) [
      | none ↦ false
      | some known ↦ not (same_fields known.1 (source_data s))
    ]
    || conflicts events sources

-- The second loop of `finish_tool_call`, one source: the call contributes to it; a new source is
-- progress and an event.
unfoldable pub add_source : String → ToolSource → RunExecution → List ProductEvent × RunExecution
add_source tool_call_id source s =
    let contributing : List String = elim (lookup source.source_id s.accepted_sources) [
      | none ↦ []
      | some calls ↦ calls
    ] in
    let s' : RunExecution = record s {
      accepted_sources = insert source.source_id (add tool_call_id contributing) s.accepted_sources;
    } in
    elim (lookup source.source_id s.source_events) [
      | some existing ↦ (
        [],
        record s' {
          source_events =
              insert source.source_id (add tool_call_id existing.0, existing.1) s.source_events;
        },
      )
      | none ↦ (
        record { type = "source.added"; payload = source_data source } ∷ [],
        record_progress ("source:" ++ source.source_id) (record s' {
          source_events =
              insert source.source_id (tool_call_id ∷ [], source_data source) s.source_events;
        }),
      )
    ]

unfoldable pub add_sources :
    String → List ToolSource → RunExecution → List ProductEvent × RunExecution
add_sources tool_call_id [] s = ([], s)
add_sources tool_call_id (source ∷ sources) s =
    let (events, s') = add_source tool_call_id source s in
    let (more, s'') = add_sources tool_call_id sources s' in (join events more, s'')

unfoldable pub finished_data : String → String → RegisteredTool → ParsedToolOutcome → Fields
finished_data tool_call_id tool_id tool outcome =
    ("tool_call_id", text tool_call_id)
    ∷ ("name", text tool_id)
    ∷ ("label", text tool.label)
    ∷ ("output_summary", text outcome.output_summary)
    ∷ []

-- What `finish_tool_call` writes once the outcome is accepted.
unfoldable pub close_call :
    RunConfig
    → String
    → String
    → ParsedToolOutcome
    → RegisteredTool
    → RunExecution
    → List ProductEvent × RunExecution
close_call c tool_call_id tool_id outcome tool s =
    let event_data : Fields = finished_data tool_call_id tool_id tool outcome in
    let s' : RunExecution = record s {
      finished_calls = insert tool_call_id (tool_id, event_data) s.finished_calls;
      tool_calls_succeeded = s.tool_calls_succeeded + 1;
    } in
    let (events, s'') =
      add_sources tool_call_id outcome.sources
        (record_progress ("tool-fact:" ++ outcome.fact_fingerprint) s') in
    (record { type = "tool.finished"; payload = event_data } ∷ events, s'')

-- The test on the started call and the message.
abbrev pub is_closing : String → String → ToolMessage → RunExecution → Bool
is_closing tool_call_id tool_id message s =
    elim (lookup tool_call_id s.started_calls) [ none ↦ false | some call ↦ str_eq call.0 tool_id ]
    && (not (has_key tool_call_id s.finished_calls)
        && (str_eq message.tool_call_id tool_call_id
            && elim message.name [ none ↦ true | some name ↦ str_eq name tool_id ]))

unfoldable pub finish_admitted :
    RunConfig → String → String → ToolMessage → Policy (List ProductEvent)
finish_admitted c tool_call_id tool_id message s =
    if not (is_closing tool_call_id tool_id message s)
    then (err (execution_failed "tool_lifecycle_invalid"), s)
    else elim (parse_tool_message c.tool_registry tool_id message) [
      | err e ↦ (err (execution_failed "tool_execution_failed"), s)
      | ok outcome ↦ elim (require c.tool_registry tool_id) [
        | err e ↦ (err (execution_failed "tool_execution_failed"), s)
        | ok tool ↦
            if conflicts s.source_events outcome.sources
            then (err sources_refused, s)
            else let (events, s') = close_call c tool_call_id tool_id outcome tool s in
              (ok events, s')
      ]
    ]

unfoldable pub finish_tool_call :
    RunConfig → ℕ → String → String → ToolMessage → Policy (List ProductEvent)
unfolding ensure_deadline finish_admitted
finish_tool_call c now tool_call_id tool_id message =
    ensure_deadline now >> finish_admitted c tool_call_id tool_id message
