-- ===== src/Policy/Tests/Examples.antt =====
-- The theorems of the Host policy at the Run of the tests.
use work_assistant_agent.Prelude.{
  ℕ, ◌≡◌, ◌↔◌, ◌≤◌, ◌<◌, ◌+◌, refl, true, none, some, [], ◌∷◌, ok, length, arith, is_ok, err,
}
use work_assistant_agent.Prelude.Dict.{lookup, insert}
use work_assistant_agent.Prelude.Names.{take_text}
use work_assistant_agent.Agents.Pattern.{valid_identifier, valid_version}
use work_assistant_agent.Capabilities.Values.{same_fields, get_text}
use work_assistant_agent.Capabilities.Tools.{valid_outcome}
use work_assistant_agent.Capabilities.Registry.{
  require, canonicalize_call, parse_tool_message, enabled_tool_ids,
}
use work_assistant_agent.Capabilities.Decision.{decided, valid_decision}
use work_assistant_agent.Policy.State.{new_execution, record_progress, ToolReservation}
use work_assistant_agent.Policy.Reserve.{reserve_tool_calls, update_reservations}
use work_assistant_agent.Policy.Steps.{before_model_call}
use work_assistant_agent.Policy.Calls.{
  begin_tool_call, finish_tool_call, is_permitted, started_data, conflicts, close_call, add_sources,
  add_source, finished_data, source_data,
}
use work_assistant_agent.Policy.Events.{accept_runtime_event, validate_runtime_event}
use work_assistant_agent.Policy.Evidence.{OutcomeStatus, unvalidated_sources}
use work_assistant_agent.Policy.Violation.{result_schema_invalid}
use work_assistant_agent.Policy.Results.{shaped, misshaped, validate_result, valid_result, outcome}
use work_assistant_agent.Policy.Invariant.{book, IsValid}
use work_assistant_agent.Policy.Invariant.Citing.{verdict, IsCited}
use work_assistant_agent.Policy.Runs.{Reach-IsValid, Reach-IsCited, Reach-started_within}
use work_assistant_agent.Policy.Limits.{before_model_call-within, spin, spin-stops}
use work_assistant_agent.Policy.Admission.{IsAdmitted, begin_tool_call_iff, begin_tool_call-emits}
use work_assistant_agent.Policy.Verdicts.{IsAcceptable, validate_result_iff}
use work_assistant_agent.Policy.Execute.{emit_each}
use work_assistant_agent.Policy.Execute.Ends.{finish_tool_call-emits}
use work_assistant_agent.Policy.Tests.{
  at_confirmation, finish_event, source_event, answer, confirmed, finished, config, fresh, asked,
  reserved, started, sourced, judged, history, start_event, result, at_reservation,
}

Reach-IsValid_example : IsValid 2 (book judged)
Reach-IsValid_example = Reach-IsValid config 0 0 history

Reach-started_within_example : length judged.started_calls ≤ 2
Reach-started_within_example = Reach-started_within config 0 0 history

Reach-IsCited_example : IsCited (verdict judged)
Reach-IsCited_example = Reach-IsCited config 0 0 history

validate_result_iff_example :
    ((validate_result config (shaped result) (some "It is noon.") sourced).0 ≡ ok result)
    ↔ IsAcceptable config (some "It is noon.") result sourced
validate_result_iff_example = validate_result_iff config (some "It is noon.") result sourced

begin_tool_call_iff_example :
    (is_ok (begin_tool_call config 3 "call-1" "clock" [] reserved).0 ≡ true)
    ↔ (r : ToolReservation) × IsAdmitted config 3 "call-1" "clock" [] reserved r
begin_tool_call_iff_example = begin_tool_call_iff config 3 "call-1" "clock" [] reserved

begin_tool_call-emits_example : validate_runtime_event start_event started ≡ ok tt
unfolding new_execution before_model_call reserve_tool_calls update_reservations begin_tool_call
    is_permitted lookup insert take_text same_fields require canonicalize_call enabled_tool_ids
    decided valid_identifier valid_version valid_decision started_data
begin_tool_call-emits_example =
    begin_tool_call-emits config 3 "call-1" "clock" [] reserved 2 {validated = []} {e = start_event}
      {t = started} (Reach-IsValid config 0 0 at_reservation) refl

before_model_call-within_example :
    (1 < fresh.deadline_at)
    × (asked.model_steps ≡ fresh.model_steps + 1)
    × (asked.model_steps ≤ 3)
    × (asked.deadline_at ≡ fresh.deadline_at)
    × (asked.last_model_progress_revision ≡ asked.progress_revision)
unfolding before_model_call new_execution
before_model_call-within_example = before_model_call-within config 1 fresh {t = asked} refl

spin-stops_example : length {A = ℕ} (1 ∷ 2 ∷ []) ≤ 2
unfolding before_model_call new_execution
spin-stops_example =
    spin-stops config (1 ∷ 2 ∷ []) fresh {t = (spin config (1 ∷ 2 ∷ []) fresh).1} (omega arith) refl

finish_tool_call-emits_example :
    (emit_each (accept_runtime_event 8) (finish_event ∷ source_event ∷ []) finished).0 ≡ ok tt
unfolding new_execution before_model_call reserve_tool_calls update_reservations begin_tool_call
    is_permitted finish_tool_call accept_runtime_event lookup insert take_text same_fields get_text
    require canonicalize_call parse_tool_message enabled_tool_ids decided valid_outcome
    valid_identifier valid_version valid_decision started_data conflicts close_call add_sources
    add_source record_progress finished_data source_data
finish_tool_call-emits_example =
    finish_tool_call-emits config 5 8 "call-1" "clock" answer confirmed 2
      {events = finish_event ∷ source_event ∷ []} {t = finished}
      (Reach-IsValid config 0 0 at_confirmation) refl refl

-- The test of a result that passes and one that is refused after it: the sources of the first stay.
refused_after_pass :
    outcome config 9 OutcomeStatus.failed "result_schema_invalid"
      (some result_schema_invalid)
      true
      (validate_result config misshaped none judged).1
    ≡ err unvalidated_sources
unfolding new_execution before_model_call reserve_tool_calls update_reservations begin_tool_call
    is_permitted finish_tool_call accept_runtime_event lookup insert take_text same_fields get_text
    require canonicalize_call parse_tool_message enabled_tool_ids decided valid_outcome
    valid_identifier valid_version validate_result valid_result valid_decision started_data
    conflicts close_call add_sources add_source record_progress finished_data source_data outcome
refused_after_pass = refl
