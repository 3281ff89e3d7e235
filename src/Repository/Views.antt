-- ===== src/Repository/Views.antt =====
-- What is read off a row (backend/src/work_assistant/repository.py): `_run_view`, `_event_view`, the
-- terminal usage of a Run and the account's figures.
pub mod Metering
pub mod Order
use Prim.Native.String.{compare}
use Prim.Native.Nat.{Ordering}
use work_assistant_agent.Prelude.{
  ℕ, ◌-◌, ◌/◌, Bool, true, false, ◌&&◌, ◌||◌, not, String, Option, none, some, List, [], ◌∷◌,
  Result, ok, err, length, filter, map, ltb, leb, ◌==◌, str_eq, if◌then◌else◌,
}
use work_assistant_agent.Prelude.Dict.{values}
use work_assistant_agent.Prelude.Sorting.{sort_by}
use work_assistant_agent.Usage.Metric.{
  UsageAvailability, UsageMetric, UsageFault, build_metric, complete,
}
use work_assistant_agent.Usage.Run.{
  ProviderTokenUsage, RunUsage, RunErrorCategory, UsageState, metering_schema_version,
  validate_state, unavailable_run_usage,
}
use work_assistant_agent.Usage.Ledger.Types.{direct, finalizer, ModelAttemptStatus, same_status}
use work_assistant_agent.Usage.Snapshot.{metric_of}
use work_assistant_agent.Schemas.Payload.{
  EventFault, Payload, Message, validate_product_event, normalize_stored_product_event,
}
use work_assistant_agent.Repository.Records.{
  RunStatus, is_active, Store, ThreadRecord, RunRecord, ModelAttemptRecord, MessageRecord,
  EventRecord, usage_metering, usage_invalid, product_event_invalid, Checked,
}
use work_assistant_agent.Repository.Access.{◌|>=◌}

pub record ThreadSummary : Type 0 where
  pub thread_id : String
  pub title : String
  pub created_at : ℕ
  pub updated_at : ℕ

pub record RunView : Type 0 where
  pub run_id : String
  pub thread_id : String
  pub status : RunStatus
  pub last_seq : ℕ
  pub created_at : ℕ
  pub completed_at : Option ℕ
  pub usage : RunUsage

pub record EventEnvelope : Type 0 where
  pub event_id : String
  pub run_id : String
  pub thread_id : String
  pub seq : ℕ
  pub type : String
  pub occurred_at : ℕ
  pub payload : Payload

unfoldable pub thread_summary : String → ThreadRecord → ThreadSummary
thread_summary id t = record {
  thread_id = id;
  title = t.title;
  created_at = t.created_at;
  updated_at = t.updated_at;
}

unfoldable pub message_view : String → MessageRecord → Message
message_view id m = record {
  message_id = id;
  role = m.role;
  content = m.content;
  created_at = m.created_at;
  run_id = m.run_id;
}

module _ {A : Type 0} where
  -- A model that is built, and whose validators may refuse.
  abbrev pub built : Result UsageFault A → Checked A
  built (ok a) = ok a
  built (err e) = err (usage_invalid e)

-- `RunUsage.model_validate(record.usage_metrics)`
abbrev reread : RunUsage → Checked RunUsage
reread u = elim (validate_state u) [
  | ok v ↦ ok v
  | err _ ↦ err (usage_metering "run_usage_invalid")
]

-- The usage in the view of a Run.
unfoldable pub view_usage : RunRecord → Checked RunUsage
unfolding unavailable_run_usage
view_usage r = elim r.metering_version [
  | none ↦ built (unavailable_run_usage UsageState.unknown)
  | some _ ↦ elim r.usage_metrics [
    | some u ↦ reread u
    | none ↦
        if not (is_active r.status)
        then err (usage_metering "terminal_run_usage_missing")
        else built (unavailable_run_usage UsageState.pending)
  ]
]

unfoldable pub run_view : String → RunRecord → Checked RunView
unfolding view_usage
run_view id r = view_usage r |>= λ u. ok (record {
  run_id = id;
  thread_id = r.thread_id;
  status = r.status;
  last_seq = r.last_seq;
  created_at = r.created_at;
  completed_at = r.completed_at;
  usage = u;
})

abbrev pub accepted : {A : Type 0} → Result EventFault A → Checked A
accepted (ok a) = ok a
accepted (err e) = err (product_event_invalid e)

unfoldable pub event_view : String → EventRecord → Checked EventEnvelope
event_view id e =
    accepted (validate_product_event e.type (normalize_stored_product_event e.type e.payload))
    |>= λ payload. ok (record {
      event_id = id;
      run_id = e.run_id;
      thread_id = e.thread_id;
      seq = e.seq;
      type = e.type;
      occurred_at = e.occurred_at;
      payload = payload;
    })

unfoldable pub elapsed_ms : ℕ → Option ℕ → Option ℕ
elapsed_ms start none = none
elapsed_ms start (some end) = some ((end - start) / 1000)

-- `_attempt_token_metric`, of the values of one column
unfoldable pub attempt_token_metric :
    (ProviderTokenUsage → Option ℕ) → List ModelAttemptRecord → Result UsageFault UsageMetric
unfolding build_metric metric_of
attempt_token_metric field [] = build_metric (some 0) complete
attempt_token_metric field (a ∷ attempts) =
    metric_of (map (λ (b : ModelAttemptRecord). field b.tokens) (a ∷ attempts))

abbrev is_answer : ModelAttemptRecord → Bool
is_answer a = elim a.call_kind [ direct ↦ true | finalizer ↦ true | _ ↦ false ]

answer_duration : List ModelAttemptRecord → Option ℕ
unfolding elapsed_ms
answer_duration (a ∷ []) =
    if same_status a.status ModelAttemptStatus.succeeded
    then elapsed_ms a.started_at a.completed_at
    else none
answer_duration _ = none

unfoldable pub terminal_run_usage :
    RunRecord → List ModelAttemptRecord → ℕ → Option RunErrorCategory → Checked RunUsage
unfolding attempt_token_metric answer_duration validate_state elapsed_ms
terminal_run_usage r attempts completed_at category =
    built (attempt_token_metric (λ u. u.input_tokens) attempts) |>= λ input.
    built (attempt_token_metric (λ u. u.output_tokens) attempts) |>= λ output.
    built (attempt_token_metric (λ u. u.cached_tokens) attempts) |>= λ cached.
    built (attempt_token_metric (λ u. u.reasoning_tokens) attempts) |>= λ reasoning.
    built (attempt_token_metric (λ u. u.total_tokens) attempts) |>= λ total. built (
      validate_state (record {
        schema_version = some metering_schema_version;
        state = UsageState.final;
        model_call_count = some (length attempts);
        retry_count =
            some (length (filter (λ (a : ModelAttemptRecord). ltb 1 a.attempt_index) attempts));
        input_tokens = input;
        output_tokens = output;
        cached_tokens = cached;
        reasoning_tokens = reasoning;
        total_tokens = total;
        time_to_first_visible_ms = elapsed_ms r.created_at r.first_visible_at;
        generation_duration_ms = answer_duration (filter is_answer attempts);
        run_duration_ms = elapsed_ms r.created_at (some completed_at);
        error_category = category;
      }))

-- `_usage_count_metric`
unfoldable pub usage_count_metric : (RunUsage → Option ℕ) → RunUsage → Checked UsageMetric
unfolding build_metric
usage_count_metric field u = elim u.state [
  | UsageState.final ↦ elim (field u) [
    | none ↦ err (usage_metering "final_usage_count_missing")
    | some v ↦ built (build_metric (some v) complete)
  ]
  | UsageState.unknown ↦ built (build_metric none UsageAvailability.unknown)
  | UsageState.pending ↦ built (build_metric none UsageAvailability.pending)
]

-- `ORDER BY at, id`: a row with its key is not after another.
abbrev pub text_before : String → String → Bool
text_before s t = elim (compare s t) [ Ordering.gt ↦ false | _ ↦ true ]

abbrev pub in_order : ℕ → String → ℕ → String → Bool
in_order at id at' id' = ltb at at' || (at == at' && text_before id id')

-- The attempts of a Run, `ORDER BY call_index, attempt_index`.
unfoldable pub attempts_of : String → Store → List ModelAttemptRecord
unfolding sort_by
attempts_of run_id s =
    sort_by
      (λ (a b : ModelAttemptRecord).
        ltb a.call_index b.call_index
        || (a.call_index == b.call_index && leb a.attempt_index b.attempt_index))
      (filter (λ (a : ModelAttemptRecord). str_eq a.run_id run_id) (values s.attempts))
