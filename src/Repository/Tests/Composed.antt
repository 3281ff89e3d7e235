-- ===== src/Repository/Tests/Composed.antt =====
-- The theorems about the sweep, a repeated request and the terminal usage at the Run of the tests.
use work_assistant_agent.Prelude.{
  ◌≡◌, refl, Bool, true, false, String, none, some, List, [], Result, ok, err, map,
}
use work_assistant_agent.Prelude.Dict.{lookup, insert, values}
use work_assistant_agent.Schemas.Payload.{normalize_stored_product_event}
use work_assistant_agent.Repository.Records.{is_active, Store, RepositoryError, RunStatus}
use work_assistant_agent.Repository.Creation.Replays.{create_run-twice}
use work_assistant_agent.Repository.Creation.{
  RunIds, create_initial_run, create_run, validate_execution_plan,
}
use work_assistant_agent.Repository.Transitions.{complete_run}
use work_assistant_agent.Repository.Events.{append_active_event, start_run}
use work_assistant_agent.Repository.Attempts.{start_model_attempt}
use work_assistant_agent.Repository.Views.{RunView, terminal_run_usage, attempts_of}
use work_assistant_agent.Repository.Views.Metering.{
  of_row, of_attempt, SameFigures, terminal_run_usage_figures,
}
use work_assistant_agent.Usage.Ledger.Types.{RunUsageLedger}
use work_assistant_agent.Usage.Snapshot.{snapshot}
use work_assistant_agent.Usage.Ledger.{begin_attempt, new_ledger}
use work_assistant_agent.Usage.Ledger.Types.{Attempt, direct}
use work_assistant_agent.Usage.Run.{RunUsage}
use work_assistant_agent.Prelude.Sorting.{sort_by, insert_by}
use work_assistant_agent.Prelude.{leb}
use work_assistant_agent.Prelude.Dict.{drop_key}
use work_assistant_agent.Repository.Recovery.{fail_orphaned_runs}
use work_assistant_agent.Repository.Lives.Orphans.{fail_orphaned_runs_complete}
use work_assistant_agent.Usage.Metric.{UsageMetric, UsageAvailability}
use work_assistant_agent.Usage.Run.{UsageState}
use work_assistant_agent.Policy.Plan.{
  valid_plan, valid_agent_fields, valid_host_fields, valid_layers, valid_contract_evidence,
  valid_intersection,
}
use work_assistant_agent.Capabilities.Tools.{is_sha256}
use work_assistant_agent.Agents.Pattern.{valid_identifier, valid_version}
use work_assistant_agent.Agents.Definition.{valid_tool_names, valid_budget}
use work_assistant_agent.Repository.Tests.{alice, plan, streamed, done}
use work_assistant_agent.Repository.Tests.Examples.{row}

abbrev event_name : String → String
event_name id = "event 5"

-- The sweep of a process that starts again while the Run streams.
abbrev swept : Result RepositoryError (List RunView) × Store
swept = fail_orphaned_runs event_name 9000 streamed

abbrev swept_views : List RunView
swept_views = elim swept.0 [ ok views ↦ views | err _ ↦ [] ]

swept_ok : fail_orphaned_runs event_name 9000 streamed ≡ (ok swept_views, swept.1)
unfolding lookup insert complete_run append_active_event start_model_attempt start_run
    create_initial_run valid_plan valid_agent_fields is_sha256 valid_host_fields valid_layers
    valid_tool_names valid_budget valid_contract_evidence valid_intersection
    normalize_stored_product_event valid_identifier valid_version fail_orphaned_runs
swept_ok = refl

found_swept : lookup "run" swept.1.runs ≡ some (row swept.1)
unfolding lookup insert complete_run append_active_event start_model_attempt start_run
    create_initial_run valid_plan valid_agent_fields is_sha256 valid_host_fields valid_layers
    valid_tool_names valid_budget valid_contract_evidence valid_intersection
    normalize_stored_product_event valid_identifier valid_version fail_orphaned_runs
found_swept = refl

fail_orphaned_runs_complete_example : is_active (row swept.1).status ≡ false
fail_orphaned_runs_complete_example =
    fail_orphaned_runs_complete event_name 9000 streamed swept.1 swept_views "run" (row swept.1)
      swept_ok found_swept

abbrev next_ids : RunIds
next_ids = record { run = "run 2"; message = "question 2" }

abbrev again_ids : RunIds
again_ids = record { run = "run 3"; message = "question 3" }

-- A second Run of the thread.
abbrev asked : Result RepositoryError (RunView × Bool) × Store
asked = create_run next_ids alice "thread" "More" "key 2" plan 10000 done

abbrev pending_metric : UsageMetric
pending_metric = record { value = none; availability = UsageAvailability.pending }

abbrev asked_view : RunView
asked_view = record {
  run_id = "run 2";
  thread_id = "thread";
  status = RunStatus.created;
  last_seq = 0;
  created_at = 10000;
  completed_at = none;
  usage = record {
    schema_version = none;
    state = UsageState.pending;
    model_call_count = none;
    retry_count = none;
    input_tokens = pending_metric;
    output_tokens = pending_metric;
    cached_tokens = pending_metric;
    reasoning_tokens = pending_metric;
    total_tokens = pending_metric;
    time_to_first_visible_ms = none;
    generation_duration_ms = none;
    run_duration_ms = none;
    error_category = none;
  };
}

asked_is_new :
    create_run next_ids alice "thread" "More" "key 2" plan 10000 done
    ≡ (ok (asked_view, true), asked.1)
unfolding lookup insert complete_run append_active_event start_model_attempt start_run
    create_initial_run valid_plan valid_agent_fields is_sha256 valid_host_fields valid_layers
    valid_tool_names valid_budget valid_contract_evidence valid_intersection
    normalize_stored_product_event valid_identifier valid_version create_run
asked_is_new = refl

plan_is_valid : validate_execution_plan plan ≡ ok plan
unfolding lookup insert complete_run append_active_event start_model_attempt start_run
    create_initial_run valid_plan valid_agent_fields is_sha256 valid_host_fields valid_layers
    valid_tool_names valid_budget valid_contract_evidence valid_intersection
    normalize_stored_product_event valid_identifier valid_version validate_execution_plan
plan_is_valid = refl

create_run-twice_example :
    create_run again_ids alice "thread" "More!" "key 2" plan 10001 asked.1
    ≡ (ok (asked_view, false), asked.1)
create_run-twice_example =
    create_run-twice next_ids again_ids alice "thread" "More" "More!" "key 2" plan plan 10000 10001
      asked_view done asked.1 asked_is_new plan_is_valid

-- The ledger that the attempt of the Run was begun in, by a clock of its own.
abbrev in_memory : RunUsageLedger
in_memory = (begin_attempt 70 "attempt" direct none (new_ledger 50)).1

abbrev earlier : Attempt → Attempt → Bool
earlier a b = leb a.start.call_index b.start.call_index

same_attempts :
    map of_row (attempts_of "run" streamed)
    ≡ map of_attempt (sort_by earlier (values in_memory.attempts))
unfolding lookup insert complete_run append_active_event start_model_attempt start_run
    create_initial_run valid_plan valid_agent_fields is_sha256 valid_host_fields valid_layers
    valid_tool_names valid_budget valid_contract_evidence valid_intersection
    normalize_stored_product_event valid_identifier valid_version attempts_of sort_by insert_by
    begin_attempt new_ledger drop_key
same_attempts = refl

terminal_run_usage_figures_example :
    (u : RunUsage) × (v : RunUsage) × (terminal_run_usage
        (row streamed)
        (attempts_of "run" streamed)
        9000
        none
      ≡ ok u)
    × (snapshot 90 none in_memory ≡ ok v)
    × SameFigures u v
terminal_run_usage_figures_example =
    terminal_run_usage_figures "run" (row streamed) streamed 9000 90 none earlier in_memory
      same_attempts
