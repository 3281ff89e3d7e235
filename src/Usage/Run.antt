-- ===== src/Usage/Run.antt =====
-- `ProviderTokenUsage` and `RunUsage` of backend/src/work_assistant/usage.py, with their
-- validators. The bounds `ge=0` are the type ℕ.
use work_assistant_agent.Prelude.{
  ℕ, Bool, false, ◌||◌, ◌&&◌, not, String, Option, none, some, List, [], ◌∷◌, Result, ok, err, any,
  ltb, str_eq, is_none, is_some, if◌then◌else◌,
}
use work_assistant_agent.Usage.Metric.{
  UsageAvailability, UsageMetric, UsageFault, final_schema_version, final_call_counts,
  retries_exceed_calls, final_metric_pending, claims_schema_version, exposes_call_counts,
  metric_state_mismatch, exposes_evidence, no_reported_field, build_metric, same_availability,
}

abbrev pub metering_schema_version : String
metering_schema_version = "1.0.0"

pub data RunErrorCategory : Type 0 where
  provider tool access_or_input limit validation timeout cancelled service internal :
      RunErrorCategory

pub data UsageState : Type 0 where
  final unknown pending : UsageState

-- Only the fields that one provider response reports.
pub record ProviderTokenUsage : Type 0 where
  pub input_tokens : Option ℕ
  pub output_tokens : Option ℕ
  pub cached_tokens : Option ℕ
  pub reasoning_tokens : Option ℕ
  pub total_tokens : Option ℕ

-- `ProviderTokenUsage.require_reported_field`
unfoldable pub require_reported_field : ProviderTokenUsage → Result UsageFault ProviderTokenUsage
require_reported_field u =
    if is_none u.input_tokens
      && (is_none u.output_tokens
          && (is_none u.cached_tokens && (is_none u.reasoning_tokens && is_none u.total_tokens)))
    then err no_reported_field
    else ok u

pub record RunUsage : Type 0 where
  pub schema_version : Option String
  pub state : UsageState
  pub model_call_count : Option ℕ
  pub retry_count : Option ℕ
  pub input_tokens : UsageMetric
  pub output_tokens : UsageMetric
  pub cached_tokens : UsageMetric
  pub reasoning_tokens : UsageMetric
  pub total_tokens : UsageMetric
  pub time_to_first_visible_ms : Option ℕ
  pub generation_duration_ms : Option ℕ
  pub run_duration_ms : Option ℕ
  pub error_category : Option RunErrorCategory

abbrev pub metrics : RunUsage → List UsageMetric
metrics u =
    u.input_tokens ∷ u.output_tokens ∷ u.cached_tokens ∷ u.reasoning_tokens ∷ u.total_tokens ∷ []

-- `metric.availability in {"unknown", "pending"}`
abbrev pub is_open_metric : UsageMetric → Bool
is_open_metric m =
    same_availability UsageAvailability.unknown m.availability
    || same_availability UsageAvailability.pending m.availability

-- `self.retry_count > self.model_call_count`, of two counts that are there
abbrev exceeds : Option ℕ → Option ℕ → Bool
exceeds (some r) (some c) = ltb c r
exceeds _ _ = false

validate_final : RunUsage → Result UsageFault RunUsage
validate_final u =
    if not (elim u.schema_version [ none ↦ false | some v ↦ str_eq v metering_schema_version ])
    then err final_schema_version
    else if is_none u.model_call_count || is_none u.retry_count
    then err final_call_counts
    else if exceeds u.retry_count u.model_call_count
    then err retries_exceed_calls
    else if any is_open_metric (metrics u)
    then err final_metric_pending
    else ok u

validate_open : UsageAvailability → RunUsage → Result UsageFault RunUsage
validate_open expected u =
    if is_some u.schema_version
    then err claims_schema_version
    else if is_some u.model_call_count || is_some u.retry_count
    then err exposes_call_counts
    else if any (λ m. not (same_availability expected m.availability)) (metrics u)
    then err metric_state_mismatch
    else if is_some u.time_to_first_visible_ms
        || (is_some u.generation_duration_ms
            || (is_some u.run_duration_ms || is_some u.error_category))
    then err exposes_evidence
    else ok u

-- `RunUsage.validate_state`, on the state: `u.state` is passed as the first argument.
validate_in : UsageState → RunUsage → Result UsageFault RunUsage
unfolding validate_final validate_open
validate_in UsageState.final u = validate_final u
validate_in UsageState.unknown u = validate_open UsageAvailability.unknown u
validate_in UsageState.pending u = validate_open UsageAvailability.pending u

unfoldable pub validate_state : RunUsage → Result UsageFault RunUsage
unfolding validate_in
validate_state u = validate_in u.state u

abbrev of_state : UsageState → UsageAvailability
of_state UsageState.final = UsageAvailability.complete
of_state UsageState.unknown = UsageAvailability.unknown
of_state UsageState.pending = UsageAvailability.pending

-- `unavailable_run_usage`; the callers pass "unknown" or "pending".
unfoldable pub unavailable_run_usage : UsageState → Result UsageFault RunUsage
unfolding build_metric validate_state
unavailable_run_usage state = elim (build_metric none (of_state state)) [
  | err e ↦ err e
  | ok metric ↦ validate_state (record {
    schema_version = none;
    state = state;
    model_call_count = none;
    retry_count = none;
    input_tokens = metric;
    output_tokens = metric;
    cached_tokens = metric;
    reasoning_tokens = metric;
    total_tokens = metric;
    time_to_first_visible_ms = none;
    generation_duration_ms = none;
    run_duration_ms = none;
    error_category = none;
  })
]
