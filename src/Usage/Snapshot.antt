-- ===== src/Usage/Snapshot.antt =====
-- `RunUsageLedger.snapshot` and the figures that it adds up (backend/src/work_assistant/usage.py).
-- Milliseconds are read off microseconds: `max(0, int((end - start) * 1_000))`.
pub mod Total
pub mod Figures
use work_assistant_agent.Prelude.{
  ℕ, ◌+◌, ◌-◌, ◌/◌, Bool, true, false, ◌||◌, ◌&&◌, Option, none, some, List, [], ◌∷◌, Result, ok,
  err, length, filter, sum, map, ltb, ◌==◌, is_some, if◌then◌else◌,
}
use work_assistant_agent.Prelude.Dict.{values}
use work_assistant_agent.Usage.Metric.{
  UsageAvailability, UsageMetric, UsageFault, build_metric, complete, partial, unavailable,
}
use work_assistant_agent.Usage.Run.{
  ProviderTokenUsage, RunUsage, RunErrorCategory, UsageState, metering_schema_version,
  validate_state,
}
use work_assistant_agent.Usage.Ledger.Types.{
  ModelCallKind, direct, finalizer, ModelAttemptStatus, same_status, Attempt, RunUsageLedger,
}

-- `getattr(attempt.usage, field_name) if attempt.usage is not None else None`
abbrev pub reported : (ProviderTokenUsage → Option ℕ) → Attempt → Option ℕ
reported field a = elim a.usage [ none ↦ none | some u ↦ field u ]

-- `[value for value in values if value is not None]`
abbrev pub known : List (Option ℕ) → List ℕ
known [] = []
known (none ∷ values) = known values
known (some v ∷ values) = v ∷ known values

unfoldable pub metric_of : List (Option ℕ) → Result UsageFault UsageMetric
unfolding build_metric
metric_of values =
    if length (known values) == length values
    then build_metric (some (sum (known values))) complete
    else elim (known values) [
      | [] ↦ build_metric none unavailable
      | _ ∷ _ ↦ build_metric none partial
    ]

unfoldable pub token_metric :
    (ProviderTokenUsage → Option ℕ) → List Attempt → Result UsageFault UsageMetric
unfolding metric_of
token_metric field [] = build_metric (some 0) complete
token_metric field (a ∷ attempts) = metric_of (map (reported field) (a ∷ attempts))

abbrev pub elapsed_ms : ℕ → ℕ → ℕ
elapsed_ms start end = (end - start) / 1000

unfoldable pub duration_ms : RunUsageLedger → Option ℕ → Option ℕ
duration_ms l none = none
duration_ms l (some end) = some (elapsed_ms l.started_at end)

-- `attempt.start.call_kind in {"direct", "finalizer"}`
abbrev pub is_answer : Attempt → Bool
is_answer a = elim a.start.call_kind [ direct ↦ true | finalizer ↦ true | _ ↦ false ]

abbrev pub answer_duration : List Attempt → Option ℕ
answer_duration (a ∷ []) = elim a.completed_at [
  | none ↦ none
  | some end ↦
      if same_status a.status ModelAttemptStatus.succeeded
      then some (elapsed_ms a.started_at end)
      else none
]
answer_duration _ = none

unfoldable pub generation_duration_ms : List Attempt → Option ℕ
generation_duration_ms attempts = answer_duration (filter is_answer attempts)

-- `sum(item.start.attempt_index > 1 for item in attempts)`
unfoldable pub retry_count : List Attempt → ℕ
retry_count attempts = length (filter (λ (a : Attempt). ltb 1 a.start.attempt_index) attempts)

infixl 5 ◌>>=◌
abbrev pub ◌>>=◌ :
    {A B : Type 0} → Result UsageFault A → (A → Result UsageFault B) → Result UsageFault B
ok a >>= f = f a
err e >>= f = err e

unfoldable pub snapshot : ℕ → Option RunErrorCategory → RunUsageLedger → Result UsageFault RunUsage
snapshot now category l = do
  let attempts = values l.attempts
  input ← token_metric (λ u. u.input_tokens) attempts
  output ← token_metric (λ u. u.output_tokens) attempts
  cached ← token_metric (λ u. u.cached_tokens) attempts
  reasoning ← token_metric (λ u. u.reasoning_tokens) attempts
  total ← token_metric (λ u. u.total_tokens) attempts
  validate_state (record {
    schema_version = some metering_schema_version;
    state = UsageState.final;
    model_call_count = some (length attempts);
    retry_count = some (retry_count attempts);
    input_tokens = input;
    output_tokens = output;
    cached_tokens = cached;
    reasoning_tokens = reasoning;
    total_tokens = total;
    time_to_first_visible_ms = duration_ms l l.first_visible_at;
    generation_duration_ms = generation_duration_ms attempts;
    run_duration_ms = duration_ms l (some now);
    error_category = category;
  })
