-- ===== src/Policy/Tests.antt =====
-- A Run with one Tool, "clock", and the theorems of the Host policy at its states.
pub mod Examples
pub mod Startup
use work_assistant_agent.Prelude.{
  ℕ, ◌≡◌, refl, Bool, true, false, String, Option, none, some, List, [], ◌∷◌, Result, ok, err,
  is_ok,
}
use work_assistant_agent.Prelude.Dict.{Dict, lookup, insert}
use work_assistant_agent.Prelude.Names.{take_text, is_space}
use work_assistant_agent.Agents.Pattern.{valid_identifier, valid_version}
use work_assistant_agent.Agents.Definition.{AgentDefinition, required_if_tool_used, valid_agent}
use work_assistant_agent.Capabilities.Values.{Fields, text, same_fields, get_text}
use work_assistant_agent.Capabilities.Tools.{
  ToolSource, ParsedToolOutcome, ToolMessage, RegisteredTool, valid_outcome, register,
}
use work_assistant_agent.Capabilities.Registry.{
  ToolRegistry, require, canonicalize_call, parse_tool_message, enabled_tool_ids,
}
use work_assistant_agent.Capabilities.Decision.{
  Principal, CapabilityDecision, decided, valid_decision,
}
use work_assistant_agent.Policy.State.{
  RunConfig, RunExecution, ProductEvent, new_execution, record_progress,
}
use work_assistant_agent.Policy.Reserve.{ToolCall, reserve_tool_calls, update_reservations}
use work_assistant_agent.Policy.Steps.{before_model_call}
use work_assistant_agent.Policy.Calls.{
  begin_tool_call, finish_tool_call, is_permitted, started_data, conflicts, close_call, add_sources,
  add_source, finished_data, source_data,
}
use work_assistant_agent.Policy.Events.{accept_runtime_event}
use work_assistant_agent.Policy.Results.{AgentResult, shaped, validate_result}
use work_assistant_agent.Policy.Runs.{
  Reach, here, next, reserves, begins, finishes, accepts, validates, calls_model,
}

abbrev pub fact : String
fact = "0123456789abcdef0123456789abcdef0123456789abcdef0123456789abcdef"

abbrev pub clock_source : ToolSource
clock_source = record {
  source_id = "source:clock";
  label = "Clock";
  description = "The host clock.";
}

abbrev pub clock : RegisteredTool
clock = record {
  tool_id = "clock";
  version = "1.0.0";
  enabled = true;
  label = "Clock";
  implementation_name = "clock";
  validate_input = λ fields. some fields;
  summarize_input = λ fields. some "now";
  parse_output = λ message.
      some
        (record { output_summary = "noon"; fact_fingerprint = fact; sources = clock_source ∷ [] });
  terminal_after_success = false;
}

abbrev pub agent : AgentDefinition
agent = record {
  schema_version = "1.0.0";
  agent_id = "assistant";
  version = "1.0.0";
  enabled = true;
  model_profile = "default";
  prompt = record { prompt_id = "assistant.prompt"; version = "1.0.0"; instructions = "Help." };
  allowed_tools = "clock" ∷ [];
  base_tools = "clock" ∷ [];
  budget = record {
    max_model_steps = 3;
    max_tool_calls = 2;
    deadline = 1000000;
    max_identical_tool_calls = 1;
    max_no_progress_steps = 2;
  };
  result_contract = record {
    schema_version = "1.0.0";
    max_answer_chars = 100;
    source_policy = required_if_tool_used;
  };
}

abbrev pub config : RunConfig
config = record {
  principal = record {
    subject = "user";
    display_name = none;
    organization = none;
    roles = [];
    session_id = none;
  };
  agent = agent;
  capability_decision = record {
    policy_id = "neutral-authenticated-tools";
    policy_version = "1.0.0";
    allowed_tools = "clock" ∷ [];
  };
  visible_tool_ids = "clock" ∷ [];
  tool_registry = record {
    registry_id = "tools";
    version = "1.0.0";
    records = ("clock", clock) ∷ [];
  };
  capability_policy = record {
    policy_id = "neutral-authenticated-tools";
    version = "1.0.0";
    decide = λ principal agent enabled. some (record {
      policy_id = "neutral-authenticated-tools";
      policy_version = "1.0.0";
      allowed_tools = enabled;
    });
  };
  sha256 = λ t. t;
  fingerprint = λ id version fields. id;
}

abbrev pub call : ToolCall
call = record { id = some "call-1"; name = some "clock"; args = some [] }

abbrev pub answer : ToolMessage
answer = record {
  tool_call_id = "call-1";
  name = some "clock";
  is_success = true;
  content = "12:00";
}

abbrev pub fresh : RunExecution
fresh = new_execution config 0 0

abbrev pub asked : RunExecution
asked = (before_model_call config 1 fresh).1

abbrev pub reserved : RunExecution
reserved = (reserve_tool_calls config 2 (call ∷ []) asked).1

abbrev pub started : RunExecution
started = (begin_tool_call config 3 "call-1" "clock" [] reserved).1

abbrev pub start_event : ProductEvent
start_event = record {
  type = "tool.started";
  payload =
      ("tool_call_id", text "call-1")
      ∷ ("name", text "clock")
      ∷ ("label", text "Clock")
      ∷ ("input_summary", text "now")
      ∷ [];
}

abbrev pub confirmed : RunExecution
confirmed = (accept_runtime_event 4 start_event started).1

abbrev pub finished : RunExecution
finished = (finish_tool_call config 5 "call-1" "clock" answer confirmed).1

abbrev pub finish_event : ProductEvent
finish_event = record {
  type = "tool.finished";
  payload =
      ("tool_call_id", text "call-1")
      ∷ ("name", text "clock")
      ∷ ("label", text "Clock")
      ∷ ("output_summary", text "noon")
      ∷ [];
}

abbrev pub source_event : ProductEvent
source_event = record {
  type = "source.added";
  payload =
      ("source_id", text "source:clock")
      ∷ ("label", text "Clock")
      ∷ ("description", text "The host clock.")
      ∷ [];
}

abbrev pub closed : RunExecution
closed = (accept_runtime_event 6 finish_event finished).1

abbrev pub sourced : RunExecution
sourced = (accept_runtime_event 7 source_event closed).1

abbrev pub result : AgentResult
result = record { schema_version = "1.0.0"; text = "It is noon."; source_ids = "source:clock" ∷ [] }

abbrev pub judged : RunExecution
judged = (validate_result config (shaped result) (some "It is noon.") sourced).1

pub at_reservation : Reach config fresh reserved
at_reservation = next (next here (calls_model 1)) (reserves 2 (call ∷ []))

pub at_confirmation : Reach config fresh confirmed
at_confirmation = next (next at_reservation (begins 3 "call-1" "clock" [])) (accepts 4 start_event)

-- All of the Run.
pub history : Reach config fresh judged
unfolding new_execution before_model_call reserve_tool_calls update_reservations begin_tool_call
    is_permitted finish_tool_call accept_runtime_event lookup insert take_text same_fields get_text
    require canonicalize_call parse_tool_message enabled_tool_ids decided valid_outcome
    valid_identifier valid_version valid_decision started_data conflicts close_call add_sources
    add_source record_progress finished_data source_data
history =
    next
      (next
        (next
          (next
            (next
              (next (next (next here (calls_model 1)) (reserves 2 (call ∷ [])))
                (begins 3 "call-1" "clock" []))
              (accepts 4 start_event))
            (finishes 5 "call-1" "clock" answer))
          (accepts 6 finish_event))
        (accepts 7 source_event))
      (validates (shaped result) (some "It is noon."))
