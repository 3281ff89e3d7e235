-- ===== src/Repository/Reads.antt =====
-- The queries of backend/src/work_assistant/repository.py: threads, Runs, their events and evidence,
-- and the figures of an account.
pub mod Account
pub mod Owned
use work_assistant_agent.Prelude.{
  ℕ, ◌+◌, ◌-◌, ◌*◌, Bool, true, false, ◌&&◌, ◌||◌, not, String, Option, none, some, List, [], ◌∷◌,
  filter, length, any, map, Result, ok, err, ltb, leb, is_none, str_eq, if◌then◌else◌,
}
use work_assistant_agent.Prelude.Dict.{Dict, lookup, values}
use work_assistant_agent.Prelude.Sorting.{sort_by}
use work_assistant_agent.Capabilities.Decision.{Principal}
use work_assistant_agent.Usage.Metric.{UsageMetric, aggregate_usage_metrics}
use work_assistant_agent.Usage.Run.{RunUsage}
use work_assistant_agent.Policy.Plan.{ExecutionPlanEvidence}
use work_assistant_agent.Policy.Evidence.{ExecutionOutcomeEvidence}
use work_assistant_agent.Schemas.Payload.{Message, MessageRole}
use work_assistant_agent.Repository.Records.{
  RunStatus, is_active, is_run_completed, Store, ThreadRecord, RunRecord, MessageRecord,
  EventRecord, RepositoryError, resource_not_found, of_thread, Checked,
}
use work_assistant_agent.Repository.Access.{
  require_available, found, ◌|>=◌, ◌|>◌, require_thread_owner, require_run_actor,
  require_authorized_run, require_thread_run_consistency, require_internal_run_consistency,
}
use work_assistant_agent.Repository.Views.{
  ThreadSummary, RunView, EventEnvelope, thread_summary, message_view, run_view, event_view,
  view_usage, usage_count_metric, built, in_order,
}
use work_assistant_agent.Repository.Events.{require_run}
use work_assistant_agent.Repository.Transitions.{validate_execution_outcome}
use work_assistant_agent.Repository.Creation.{validate_execution_plan}

module _ {A B : Type 0} where
  -- `[f(x) for x in xs]`, where `f` may raise
  unfoldable pub check_each : (A → Checked B) → List A → Checked (List B)
  check_each f [] = ok []
  check_each f (x ∷ xs) = f x |>= λ y. check_each f xs |>= λ ys. ok (y ∷ ys)

-- The rows of the events of a Run after a sequence number, `ORDER BY seq`.
unfoldable pub event_rows : String → ℕ → Store → List (String × EventRecord)
event_rows run_id after_seq s =
    sort_by (λ (a b : String × EventRecord). leb a.1.seq b.1.seq)
      (filter
        (λ (row : String × EventRecord). str_eq row.1.run_id run_id && ltb after_seq row.1.seq)
        s.events)

unfoldable pub view_row : String × EventRecord → Checked EventEnvelope
unfolding event_view
view_row row = event_view row.0 row.1

unfoldable pub get_run : String → Principal → Store → Checked RunView
unfolding require_available require_run require_authorized_run run_view
get_run run_id principal s = require_available s |> require_run run_id s |>= λ r.
    require_authorized_run r principal s |> run_view run_id r

unfoldable pub get_events : String → ℕ → Principal → Store → Checked (List EventEnvelope)
unfolding require_available require_run require_authorized_run event_rows check_each view_row
get_events run_id after_seq principal s = require_available s |> require_run run_id s |>= λ r.
    require_authorized_run r principal s |> check_each view_row (event_rows run_id after_seq s)

unfoldable pub stored_plan : Option ExecutionPlanEvidence → Checked (Option ExecutionPlanEvidence)
unfolding validate_execution_plan
stored_plan none = ok none
stored_plan (some p) = validate_execution_plan p |>= λ v. ok (some v)

unfoldable pub stored_outcome :
    Option ExecutionOutcomeEvidence → Checked (Option ExecutionOutcomeEvidence)
unfolding validate_execution_outcome
stored_outcome none = ok none
stored_outcome (some o) = validate_execution_outcome o |>= λ v. ok (some v)

unfoldable pub get_run_evidence :
    String
    → Principal
    → Store
    → Checked (Option ExecutionPlanEvidence × Option ExecutionOutcomeEvidence)
unfolding require_available require_run require_authorized_run stored_plan stored_outcome
get_run_evidence run_id principal s = require_available s |> require_run run_id s |>= λ r.
    require_authorized_run r principal s |> stored_plan r.execution_plan |>= λ plan.
    stored_outcome r.execution_outcome |>= λ outcome. ok (plan, outcome)

-- A message of a Run that completed, or of the Run that is asked for.
unfoldable pub in_context : String → String → Store → MessageRecord → Bool
in_context thread_id run_id s m = str_eq m.thread_id thread_id && elim m.run_id [
  | none ↦ false
  | some id ↦ elim (lookup id s.runs) [
    | none ↦ false
    | some r ↦ is_run_completed r.status || str_eq id run_id
  ]
]

abbrev message_before : String × MessageRecord → String × MessageRecord → Bool
message_before a b = in_order a.1.created_at a.0 b.1.created_at b.0

abbrev is_own_question : String → Message → Bool
is_own_question run_id m =
    (elim m.run_id [ none ↦ false | some id ↦ str_eq id run_id ])
    && (elim m.role [ MessageRole.user ↦ true | MessageRole.assistant ↦ false ])

unfoldable pub context_messages : String → String → Store → List Message
unfolding in_context message_view
context_messages thread_id run_id s =
    map (λ (row : String × MessageRecord). message_view row.0 row.1)
      (sort_by message_before
        (filter (λ (row : String × MessageRecord). in_context thread_id run_id s row.1) s.messages))

unfoldable pub get_run_context : String → Store → Checked (String × List Message)
unfolding require_available require_run require_internal_run_consistency
    require_thread_run_consistency context_messages
get_run_context run_id s = require_available s |> require_run run_id s |>= λ r.
    found "run_ownership" (lookup r.thread_id s.threads) |>= λ t.
    require_internal_run_consistency false r s
    |> require_thread_run_consistency r.thread_id t s
    |> (let messages = context_messages r.thread_id run_id s in
        if any (is_own_question run_id) messages
        then ok (r.thread_id, messages)
        else err (resource_not_found "message"))

pub record RunSnapshot : Type 0 where
  pub view : RunView
  pub events : List EventEnvelope

pub record ThreadSnapshot : Type 0 where
  pub summary : ThreadSummary
  pub messages : List Message
  pub runs : List RunSnapshot
  pub active_run : Option RunView

-- The Runs of a thread, `ORDER BY created_at, id`.
unfoldable pub runs_of_thread : String → Store → List (String × RunRecord)
runs_of_thread thread_id s =
    sort_by (λ (a b : String × RunRecord). in_order a.1.created_at a.0 b.1.created_at b.0)
      (filter (λ (row : String × RunRecord). str_eq row.1.thread_id thread_id) s.runs)

abbrev all_actors : Principal → List (String × RunRecord) → Checked (Unit {0})
unfolding require_run_actor
all_actors principal [] = ok tt
all_actors principal ((id, r) ∷ runs) =
    require_run_actor r principal of_thread |> all_actors principal runs

-- The events of one Run in the thread, `ORDER BY run_id, seq`.
unfoldable pub thread_event_rows : String → Store → String × RunRecord → List (String × EventRecord)
thread_event_rows thread_id s run =
    sort_by (λ (a b : String × EventRecord). leb a.1.seq b.1.seq)
      (filter
        (λ (row : String × EventRecord).
          str_eq row.1.thread_id thread_id && str_eq row.1.run_id run.0)
        s.events)

-- The views of the Runs, each with its events.
run_snapshots : List (String × RunRecord) → List (List EventEnvelope) → Checked (List RunSnapshot)
unfolding run_view
run_snapshots ((id, r) ∷ runs) (events ∷ logs) = run_view id r |>= λ view.
    run_snapshots runs logs |>= λ rest. ok (record { view = view; events = events } ∷ rest)
run_snapshots _ _ = ok []

first_active : List (String × RunRecord) → Checked (Option RunView)
unfolding run_view
first_active [] = ok none
first_active ((id, r) ∷ runs) =
    if is_active r.status then (run_view id r |>= λ view. ok (some view)) else first_active runs

unfoldable pub get_thread : String → Principal → Store → Checked ThreadSnapshot
unfolding require_available require_thread_owner runs_of_thread message_view run_snapshots
    first_active thread_summary check_each thread_event_rows require_run_actor view_row
get_thread thread_id principal s =
    require_available s |> found "thread" (lookup thread_id s.threads) |>= λ t.
    require_thread_owner t principal
    |> all_actors principal (runs_of_thread thread_id s)
    |> check_each (λ run. check_each view_row (thread_event_rows thread_id s run))
        (runs_of_thread thread_id s)
    |>= λ logs. run_snapshots (runs_of_thread thread_id s) logs |>= λ runs.
        first_active (runs_of_thread thread_id s) |>= λ active. ok (record {
          summary = thread_summary thread_id t;
          messages =
              map (λ (row : String × MessageRecord). message_view row.0 row.1)
                (sort_by message_before (
                  filter (λ (row : String × MessageRecord). str_eq row.1.thread_id thread_id)
                    s.messages));
          runs = runs;
          active_run = active;
        })

unfoldable pub require_thread_access : String → Principal → Store → Checked (Unit {0})
unfolding require_available require_thread_owner
require_thread_access thread_id principal s =
    require_available s |> found "thread" (lookup thread_id s.threads) |>= λ t.
    require_thread_owner t principal

-- `ORDER BY updated_at DESC, id DESC`
unfoldable pub list_threads : Principal → Store → Checked (List ThreadSummary)
unfolding require_available thread_summary
list_threads principal s =
    require_available s
    |> ok (
        map (λ (row : String × ThreadRecord). thread_summary row.0 row.1)
          (sort_by (λ (a b : String × ThreadRecord). in_order b.1.updated_at b.0 a.1.updated_at a.0)
            (filter (λ (row : String × ThreadRecord). str_eq row.1.owner_subject principal.subject)
              s.threads)))
