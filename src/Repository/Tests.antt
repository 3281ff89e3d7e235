-- ===== src/Repository/Tests.antt =====
-- A thread with one Run from its creation to its completion.
pub mod Examples
pub mod Composed
use work_assistant_agent.Prelude.{
  ℕ, ◌≡◌, refl, Bool, true, false, String, Option, none, some, List, [], ◌∷◌, ok, err, map,
}
use work_assistant_agent.Prelude.Dict.{lookup, values}
use work_assistant_agent.Capabilities.Values.{text}
use work_assistant_agent.Capabilities.Decision.{Principal}
use work_assistant_agent.Usage.Ledger.Types.{
  ModelAttemptStart, ModelAttemptFinish, FinishStatus, direct,
}
use work_assistant_agent.Policy.Plan.{ExecutionPlanEvidence}
use work_assistant_agent.Policy.State.{ResultValidation}
use work_assistant_agent.Policy.Evidence.{OutcomeStatus, ExecutionOutcomeEvidence}
use work_assistant_agent.Policy.Tests.{agent}
use work_assistant_agent.Schemas.Payload.{Payload, texts}
use work_assistant_agent.Repository.Records.{RunStatus, RunRecord, Store, empty_store}
use work_assistant_agent.Repository.Events.{start_run, append_active_event}
use work_assistant_agent.Repository.Attempts.{start_model_attempt, finish_model_attempt}
use work_assistant_agent.Repository.Transitions.{CompletionIds, complete_run}
use work_assistant_agent.Repository.Creation.{RunIds, create_initial_run, new_run}

abbrev pub alice : Principal
alice = record {
  subject = "alice";
  display_name = none;
  organization = none;
  roles = [];
  session_id = none;
}

abbrev pub plan : ExecutionPlanEvidence
plan = record {
  agent_schema_version = "1.0.0";
  agent_id = "assistant";
  agent_version = "1.0.0";
  model_profile_id = "default";
  model_profile_version = "1.0.0";
  model_provider = "openai";
  model_id = "model";
  prompt_id = "prompt";
  prompt_version = "1.0.0";
  prompt_sha256 = "0123456789abcdef0123456789abcdef0123456789abcdef0123456789abcdef";
  context_builder_version = "1.0.0";
  context_layer_versions = record {
    host = "1.0.0";
    agent = "1.0.0";
    run = "1.0.0";
    conversation = "product-message-v0.3";
    tool_data = "tool-message-v1";
  };
  capability_policy_id = "policy";
  capability_policy_version = "1.0.0";
  tool_registry_id = "tools";
  tool_registry_version = "1.0.0";
  agent_allowed_tools = [];
  base_tools = [];
  visible_tools = [];
  budget = agent.budget;
  result_contract = agent.result_contract;
}

abbrev pub outcome : ExecutionOutcomeEvidence
outcome = record {
  status = OutcomeStatus.completed;
  stop_reason = "completed";
  failure_code = none;
  usage = some (record {
    model_steps = 1;
    tool_calls_attempted = 0;
    tool_calls_succeeded = 0;
    repeated_tool_calls = 0;
    no_progress_steps = 0;
    elapsed_ms = 8;
  });
  accepted_source_ids = [];
  result_source_ids = [];
  result_schema_version = some "1.0.0";
  result_validation = ResultValidation.passed;
}

abbrev pub ids : RunIds
ids = record { run = "run"; message = "question" }

abbrev pub delta : Payload
delta = texts (("delta", text "Hi") ∷ [])

abbrev pub no_control : ℕ → Bool
no_control c = false

abbrev pub opened : Store
opened = (create_initial_run no_control ids alice "thread" "Hello" "key" plan 1000 empty_store).1

abbrev pub running : Store
running = (start_run "event 1" "run" 2000 opened).1

abbrev pub direct_start : ModelAttemptStart
direct_start = record {
  attempt_id = "attempt";
  call_index = 1;
  attempt_index = 1;
  call_kind = direct;
}

abbrev pub attempted : Store
attempted = (start_model_attempt "run" direct_start 3000 running).1

abbrev pub streamed : Store
streamed = (append_active_event "event 2" "run" "message.delta" delta 4000 attempted).1

abbrev pub completion : CompletionIds
completion = record { message = "answer"; message_event = "event 3"; run_event = "event 4" }

abbrev pub done : Store
done = (complete_run completion "run" "Hi" outcome none 9000 streamed).1
