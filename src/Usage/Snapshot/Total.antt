-- ===== src/Usage/Snapshot/Total.antt =====
-- The snapshot always passes its own validator, and its token figures are aggregates.
use work_assistant_agent.Prelude.{
  ℕ, suc, ◌≤◌, ◌≡◌, refl, ap, false, Option, none, some, List, [], ◌∷◌, ok, err, arith, length,
  length-filter, sum, map, ltb, ◌==◌, ◌≢◌, ◌-◌, ◌/◌, Result-cases, inl, inr,
}
use work_assistant_agent.Prelude.Dict.{Dict, values}
use work_assistant_agent.Usage.Metric.{
  complete, partial, unavailable, unknown, pending, UsageMetric, UsageFault,
  aggregate_usage_metrics, has_state, all_complete, total_value,
}
use work_assistant_agent.Usage.Run.{
  ProviderTokenUsage, RunUsage, RunErrorCategory, is_open_metric, metering_schema_version,
  validate_state, UsageState,
}
use work_assistant_agent.Usage.Ledger.Types.{Attempt, RunUsageLedger}
use work_assistant_agent.Usage.Snapshot.{
  reported, known, metric_of, token_metric, retry_count, duration_ms, generation_duration_ms,
  snapshot,
}

-- What one attempt reports, as a metric of its own.
abbrev pub attempt_metric : Option ℕ → UsageMetric
attempt_metric none = record { value = none; availability = unavailable }
attempt_metric (some v) = record { value = some v; availability = complete }

pub length-known : (values : List (Option ℕ)) → length (known values) ≤ length values
length-known [] = omega arith
length-known (none ∷ values) = omega (arith, length-known values)
length-known (some v ∷ values) = omega (arith, length-known values)

never_unknown : (values : List (Option ℕ)) → has_state unknown (map attempt_metric values) ≡ false
unfolding has_state
never_unknown [] = refl
never_unknown (none ∷ values) = never_unknown values
never_unknown (some v ∷ values) = never_unknown values

never_pending : (values : List (Option ℕ)) → has_state pending (map attempt_metric values) ≡ false
unfolding has_state
never_pending [] = refl
never_pending (none ∷ values) = never_pending values
never_pending (some v ∷ values) = never_pending values

never_partial : (values : List (Option ℕ)) → has_state partial (map attempt_metric values) ≡ false
unfolding has_state
never_partial [] = refl
never_partial (none ∷ values) = never_partial values
never_partial (some v ∷ values) = never_partial values

all_complete-known :
    (values : List (Option ℕ))
    → all_complete (map attempt_metric values) ≡ (length (known values) == length values)
unfolding all_complete
all_complete-known [] = refl
all_complete-known (none ∷ values) = ground (arith, length-known values)
all_complete-known (some v ∷ values) = ground (arith, all_complete-known values)

has_complete-known :
    (values : List (Option ℕ))
    → has_state complete (map attempt_metric values) ≡ ltb 0 (length (known values))
unfolding has_state
has_complete-known [] = refl
has_complete-known (none ∷ values) = has_complete-known values
has_complete-known (some v ∷ values) = ground arith

total_value-known :
    (values : List (Option ℕ)) → total_value (map attempt_metric values) ≡ sum (known values)
unfolding total_value
total_value-known [] = refl
total_value-known (none ∷ values) = omega (arith, total_value-known values)
total_value-known (some v ∷ values) = omega (arith, total_value-known values)

metric_of-eq-aggregate :
    (v : Option ℕ) (values : List (Option ℕ))
    → metric_of (v ∷ values) ≡ aggregate_usage_metrics (map attempt_metric (v ∷ values))
unfolding metric_of aggregate_usage_metrics
metric_of-eq-aggregate v values = ground (
  arith,
  never_unknown (v ∷ values),
  never_pending (v ∷ values),
  never_partial (v ∷ values),
  all_complete-known (v ∷ values),
  has_complete-known (v ∷ values),
  total_value-known (v ∷ values),
)

-- A token figure of a snapshot is the aggregate of what the attempts report one by one: complete,
-- with the sum, exactly when every attempt reports the field, partial when only some do, and
-- unavailable when none does. It is the account view's rule, applied to attempts.
pub token_metric-eq-aggregate :
    (field : ProviderTokenUsage → Option ℕ) (attempts : List Attempt)
    → token_metric field attempts
      ≡ aggregate_usage_metrics (map attempt_metric (map (reported field) attempts))
unfolding token_metric aggregate_usage_metrics
token_metric-eq-aggregate field [] = refl
token_metric-eq-aggregate field (a ∷ attempts) =
    metric_of-eq-aggregate (reported field a) (map (reported field) attempts)

metric_of_no_fault : (values : List (Option ℕ)) (e : UsageFault) → metric_of values ≢ err e
unfolding metric_of
metric_of_no_fault values e h = ground arith

metric_of_closed :
    (values : List (Option ℕ)) (m : UsageMetric)
    → metric_of values ≡ ok m
    → is_open_metric m ≡ false
unfolding metric_of
metric_of_closed values m h = ground arith

-- A token figure is always there, and is closed.
pub token_metric_closed :
    (field : ProviderTokenUsage → Option ℕ) (attempts : List Attempt)
    → (m : UsageMetric) × (token_metric field attempts ≡ ok m) × (is_open_metric m ≡ false)
unfolding token_metric
token_metric_closed field [] = (record { value = some 0; availability = complete }, refl, refl)
token_metric_closed field (a ∷ attempts) =
    let values = map (reported field) (a ∷ attempts) in
    elim (Result-cases (metric_of values)) [
      | inl (e, failed) ↦ absurd (metric_of_no_fault values e failed)
      | inr (m, found) ↦ (m, found, metric_of_closed values m found)
    ]

pub retry_count-le : (attempts : List Attempt) → retry_count attempts ≤ length attempts
unfolding retry_count
retry_count-le attempts = length-filter _ attempts

pub length-values : (l : Dict Attempt) → length (values l) ≡ length l
length-values [] = refl
length-values ((_, a) ∷ l) = ap suc (length-values l)

-- The evidence that a snapshot holds, given its five figures.
abbrev taken :
    ℕ
    → Option RunErrorCategory
    → RunUsageLedger
    → (input output cached reasoning total : UsageMetric) → RunUsage
taken now category l input output cached reasoning total = record {
  schema_version = some metering_schema_version;
  state = UsageState.final;
  model_call_count = some (length (values l.attempts));
  retry_count = some (retry_count (values l.attempts));
  input_tokens = input;
  output_tokens = output;
  cached_tokens = cached;
  reasoning_tokens = reasoning;
  total_tokens = total;
  time_to_first_visible_ms = duration_ms l l.first_visible_at;
  generation_duration_ms = generation_duration_ms (values l.attempts);
  run_duration_ms = some ((now - l.started_at) / 1000);
  error_category = category;
}

taken_valid :
    (now : ℕ) (category : Option RunErrorCategory) (l : RunUsageLedger) (i o c r t : UsageMetric)
    → is_open_metric i ≡ false
    → is_open_metric o ≡ false
    → is_open_metric c ≡ false
    → is_open_metric r ≡ false
    → is_open_metric t ≡ false
    → validate_state (taken now category l i o c r t) ≡ ok (taken now category l i o c r t)
unfolding validate_state
taken_valid now category l i o c r t hi ho hc hr ht =
    ground (arith, retry_count-le (values l.attempts))

-- The snapshot, in the terms of its own parts.
pub snapshot_taken :
    (now : ℕ) (category : Option RunErrorCategory) (l : RunUsageLedger)
    → (u : RunUsage) × (snapshot now category l ≡ ok u)
      × (u.model_call_count ≡ some (length l.attempts))
      × (u.retry_count ≡ some (retry_count (values l.attempts)))
      × (token_metric (λ p. p.input_tokens) (values l.attempts) ≡ ok u.input_tokens)
      × (token_metric (λ p. p.output_tokens) (values l.attempts) ≡ ok u.output_tokens)
      × (token_metric (λ p. p.cached_tokens) (values l.attempts) ≡ ok u.cached_tokens)
      × (token_metric (λ p. p.reasoning_tokens) (values l.attempts) ≡ ok u.reasoning_tokens)
      × (token_metric (λ p. p.total_tokens) (values l.attempts) ≡ ok u.total_tokens)
      × (u.run_duration_ms ≡ some ((now - l.started_at) / 1000))
      × (u.error_category ≡ category)
unfolding snapshot duration_ms
snapshot_taken now category l =
    let attempts = values l.attempts in
    let (i, pi, ci) = token_metric_closed (λ p. p.input_tokens) attempts in
    let (o, po, co) = token_metric_closed (λ p. p.output_tokens) attempts in
    let (c, pc, cc') = token_metric_closed (λ p. p.cached_tokens) attempts in
    let (r, pr, cr) = token_metric_closed (λ p. p.reasoning_tokens) attempts in
    let (t, pt, ct) = token_metric_closed (λ p. p.total_tokens) attempts in
    (
      taken now category l i o c r t,
      rw (pi, po, pc, pr, pt) (taken_valid now category l i o c r t ci co cc' cr ct),
      ap some (length-values l.attempts),
      refl,
      pi,
      po,
      pc,
      pr,
      pt,
      refl,
      refl,
    )
