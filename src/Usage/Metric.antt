-- ===== src/Usage/Metric.antt =====
-- `UsageMetric` and `aggregate_usage_metrics` of backend/src/work_assistant/usage.py.
-- A pydantic model is built by its checked constructor: `build_metric` runs the validator of
-- `UsageMetric`. The bound `ge=0` of its value is the type ℕ.
pub mod Compose
use work_assistant_agent.Prelude.{
  ℕ, ◌+◌, Bool, true, false, ◌||◌, Option, none, some, List, [], ◌∷◌, Result, ok, err, any, all,
  sum, map, if◌then◌else◌,
}

pub data UsageAvailability : Type 0 where
  complete partial unavailable unknown pending : UsageAvailability

pub record UsageMetric : Type 0 where
  pub value : Option ℕ
  pub availability : UsageAvailability

-- The `ValueError`s of the validators of `UsageMetric` and `RunUsage`, in the order of the source.
pub data UsageFault : Type 0 where
  complete_without_value incomplete_with_value : UsageFault
  final_schema_version final_call_counts retries_exceed_calls final_metric_pending : UsageFault
  claims_schema_version exposes_call_counts metric_state_mismatch exposes_evidence : UsageFault
  no_reported_field : UsageFault

-- `UsageMetric(value=..., availability=...)`
unfoldable pub build_metric : Option ℕ → UsageAvailability → Result UsageFault UsageMetric
build_metric none complete = err complete_without_value
build_metric (some v) complete = ok (record { value = some v; availability = complete })
build_metric (some v) _ = err incomplete_with_value
build_metric none a = ok (record { value = none; availability = a })

-- Equality of two availabilities.
abbrev pub same_availability : UsageAvailability → UsageAvailability → Bool
same_availability complete complete = true
same_availability partial partial = true
same_availability unavailable unavailable = true
same_availability unknown unknown = true
same_availability pending pending = true
same_availability _ _ = false

-- `a in {item.availability for item in items}`
unfoldable pub has_state : UsageAvailability → List UsageMetric → Bool
has_state a items = any (λ item. same_availability a item.availability) items

-- `states == {"complete"}`, of a list that is not empty
unfoldable pub all_complete : List UsageMetric → Bool
all_complete items = all (λ item. same_availability complete item.availability) items

-- `item.value or 0`
abbrev pub value_or_zero : UsageMetric → ℕ
value_or_zero m = elim m.value [ none ↦ 0 | some v ↦ v ]

unfoldable pub total_value : List UsageMetric → ℕ
total_value items = sum (map value_or_zero items)

unfoldable pub aggregate_usage_metrics : List UsageMetric → Result UsageFault UsageMetric
unfolding build_metric
aggregate_usage_metrics [] = build_metric (some 0) complete
aggregate_usage_metrics (item ∷ rest) =
    let items : List UsageMetric = item ∷ rest in
    if has_state unknown items
    then build_metric none unknown
    else if has_state pending items
    then build_metric none pending
    else if all_complete items
    then build_metric (some (total_value items)) complete
    else if has_state complete items || has_state partial items
    then build_metric none partial
    else build_metric none unavailable
