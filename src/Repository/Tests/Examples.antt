-- ===== src/Repository/Tests/Examples.antt =====
-- The theorems about the repository at the Run of the tests.
use work_assistant_agent.Prelude.{
  err, ◌≡◌, ◌≤◌, refl, true, false, ◌||◌, String, none, some, ok, map, drop, is_ok,
}
use work_assistant_agent.Prelude.Names.{text_length, take_text}
use work_assistant_agent.Prelude.Dict.{lookup, insert}
use work_assistant_agent.Schemas.Payload.{
  MessageRole, Payload, with_message, with_bare_message, validate_product_event,
  normalize_stored_product_event, invalid_product_event_payload,
}
use work_assistant_agent.Schemas.Payload.Stored.{stored_payload_reads_back}
use work_assistant_agent.Repository.Records.{
  is_active, clashes, RunRecord, ThreadRecord, Store, empty_store,
}
use work_assistant_agent.Repository.Reads.{get_run, get_events, get_run_evidence}
use work_assistant_agent.Repository.Reads.Owned.{Owns, run_queries-Owns}
use work_assistant_agent.Repository.Access.{require_authorized_run}
use work_assistant_agent.Repository.Lives.{types}
use work_assistant_agent.Repository.Lives.Log.{IsTold, log_of}
use work_assistant_agent.Repository.Lives.Histories.{
  Reach, here, after, creates_first, starts_run, starts_attempt, appends, completes_run,
  Reach-IsTold, Reach-IsExclusive,
}
use work_assistant_agent.Repository.Lives.Refinement.{Became, Step-refines, Reach-final}
use work_assistant_agent.Repository.Lives.Pages.{rows_of, envelope, Reach-get_events}
use work_assistant_agent.Repository.Creation.{new_run, first_thread, create_initial_run}
use work_assistant_agent.Repository.Transitions.{complete_run, require_cancel}
use work_assistant_agent.Repository.Events.{append_active_event, start_run}
use work_assistant_agent.Repository.Attempts.{start_model_attempt}
use work_assistant_agent.Policy.Plan.{
  valid_plan, valid_agent_fields, valid_host_fields, valid_layers, valid_contract_evidence,
  valid_intersection,
}
use work_assistant_agent.Capabilities.Tools.{is_sha256}
use work_assistant_agent.Agents.Pattern.{valid_identifier, valid_version}
use work_assistant_agent.Agents.Definition.{valid_tool_names, valid_budget}
use work_assistant_agent.Repository.Creation.Titles.{
  initial_thread_title, initial_thread_title-length,
}
use work_assistant_agent.Repository.Tests.{
  alice, plan, outcome, ids, delta, no_control, streamed, completion, done, direct_start,
}

abbrev pub row : Store → RunRecord
row s = elim (lookup "run" s.runs) [ some r ↦ r | none ↦ new_run alice "" "" plan 0 ]

at_done : Reach no_control empty_store done
at_done =
    after
      (after
        (after
          (after (after here (creates_first ids alice "thread" "Hello" "key" plan 1000))
            (starts_run "event 1" "run" 2000))
          (starts_attempt "run" direct_start 3000))
        (appends "event 2" "run" "message.delta" delta 4000))
      (completes_run completion "run" "Hi" outcome none 9000)

found_done : lookup "run" done.runs ≡ some (row done)
unfolding lookup insert complete_run append_active_event start_model_attempt start_run
    create_initial_run valid_plan valid_agent_fields is_sha256 valid_host_fields valid_layers
    valid_tool_names valid_budget valid_contract_evidence valid_intersection
    normalize_stored_product_event valid_identifier valid_version
found_done = refl

Reach-IsTold_example : IsTold "run" (row done) (log_of "run" done)
Reach-IsTold_example = Reach-IsTold no_control "run" (row done) at_done found_done

done_clash : clashes (row done) (row done) ≡ true
unfolding lookup insert complete_run append_active_event start_model_attempt start_run
    create_initial_run valid_plan valid_agent_fields is_sha256 valid_host_fields valid_layers
    valid_tool_names valid_budget valid_contract_evidence valid_intersection
    normalize_stored_product_event valid_identifier valid_version clashes
done_clash = refl

Reach-IsExclusive_example : ◌≡◌ {A = String} "run" "run"
Reach-IsExclusive_example =
    Reach-IsExclusive no_control "run" "run" (row done) (row done) at_done found_done found_done
      done_clash

found_streamed : lookup "run" streamed.runs ≡ some (row streamed)
unfolding lookup insert complete_run append_active_event start_model_attempt start_run
    create_initial_run valid_plan valid_agent_fields is_sha256 valid_host_fields valid_layers
    valid_tool_names valid_budget valid_contract_evidence valid_intersection
    normalize_stored_product_event valid_identifier valid_version
found_streamed = refl

Step-refines_example : Became "run" (row streamed) (types (log_of "run" streamed)) done
Step-refines_example =
    Step-refines no_control "run" (row streamed)
      (completes_run completion "run" "Hi" outcome none 9000) found_streamed

-- An event that comes too late.
abbrev late : Store
late = (append_active_event "event 5" "run" "message.delta" delta 9500 done).1

at_late : Reach no_control done late
at_late = after here (appends "event 5" "run" "message.delta" delta 9500)

done_is_final : is_active (row done).status ≡ false
unfolding lookup insert complete_run append_active_event start_model_attempt start_run
    create_initial_run valid_plan valid_agent_fields is_sha256 valid_host_fields valid_layers
    valid_tool_names valid_budget valid_contract_evidence valid_intersection
    normalize_stored_product_event valid_identifier valid_version
done_is_final = refl

Reach-final_example :
    (lookup "run" late.runs ≡ some (row done)) × (log_of "run" late ≡ log_of "run" done)
Reach-final_example = Reach-final no_control "run" (row done) at_late found_done done_is_final

abbrev thread_row : Store → ThreadRecord
thread_row s = elim (lookup "thread" s.threads) [
  | some t ↦ t
  | none ↦ first_thread no_control alice "" 0
]

is_open : done.fatal_error ≡ none
unfolding lookup insert complete_run append_active_event start_model_attempt start_run
    create_initial_run valid_plan valid_agent_fields is_sha256 valid_host_fields valid_layers
    valid_tool_names valid_budget valid_contract_evidence valid_intersection
    normalize_stored_product_event valid_identifier valid_version
is_open = refl

is_own : require_authorized_run (row done) alice done ≡ ok (thread_row done)
unfolding lookup insert complete_run append_active_event start_model_attempt start_run
    create_initial_run valid_plan valid_agent_fields is_sha256 valid_host_fields valid_layers
    valid_tool_names valid_budget valid_contract_evidence valid_intersection
    normalize_stored_product_event valid_identifier valid_version require_authorized_run
is_own = refl

Reach-get_events_example :
    get_events "run" 2 alice done ≡ ok (map envelope (drop 2 (rows_of "run" done)))
Reach-get_events_example =
    Reach-get_events no_control "run" (row done) 2 alice (thread_row done) at_done found_done
      is_open is_own

some_read :
    (is_ok (get_run "run" alice done)
      || (is_ok (get_events "run" 0 alice done)
          || (is_ok (get_run_evidence "run" alice done)
              || is_ok (require_cancel alice "run" done))))
    ≡ true
unfolding lookup insert complete_run append_active_event start_model_attempt start_run
    create_initial_run valid_plan valid_agent_fields is_sha256 valid_host_fields valid_layers
    valid_tool_names valid_budget valid_contract_evidence valid_intersection
    normalize_stored_product_event valid_identifier valid_version get_run get_events
    get_run_evidence require_cancel require_authorized_run
some_read = refl

run_queries-Owns_example : Owns alice "run" done
run_queries-Owns_example = run_queries-Owns alice "run" 0 done some_read

delta_is_valid : validate_product_event "message.delta" delta ≡ ok delta
unfolding validate_product_event lookup
delta_is_valid = refl

stored_payload_reads_back_example :
    validate_product_event "message.delta" (normalize_stored_product_event "message.delta" delta)
    ≡ ok delta
stored_payload_reads_back_example =
    stored_payload_reads_back "message.delta" delta delta delta_is_valid

-- The test of a message that belongs to no Run.
abbrev no_run : Payload
no_run = with_message (record {
  message_id = "m";
  role = MessageRole.user;
  content = "Hi";
  created_at = 0;
  run_id = none;
})

abbrev no_run_dumped : Payload
no_run_dumped =
    with_bare_message
      (record { message_id = "m"; role = MessageRole.user; content = "Hi"; created_at = 0 })

no_run_is_valid : validate_product_event "message.completed" no_run ≡ ok no_run_dumped
unfolding validate_product_event
no_run_is_valid = refl

no_run_is_refused :
    validate_product_event "message.completed"
      (normalize_stored_product_event "message.completed" no_run_dumped)
    ≡ err invalid_product_event_payload
no_run_is_refused =
    stored_payload_reads_back "message.completed" no_run no_run_dumped no_run_is_valid

initial_thread_title-length_example :
    (1 ≤ text_length (initial_thread_title no_control "A message that is longer than a title"))
    × (text_length (initial_thread_title no_control "A message that is longer than a title") ≤ 29)
initial_thread_title-length_example =
    initial_thread_title-length no_control "A message that is longer than a title"

-- The test of a title that is cut.
cut_title :
    initial_thread_title no_control " A  message that is longer than a title"
    ≡ "A message that is longer tha…"
unfolding initial_thread_title take_text
cut_title = refl
