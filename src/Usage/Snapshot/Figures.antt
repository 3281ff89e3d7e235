-- ===== src/Usage/Snapshot/Figures.antt =====
-- What a snapshot says of the attempts, independently of how it is added up.
use work_assistant_agent.Prelude.{
  ℕ, ◌+◌, ◌-◌, ◌/◌, ◌≡◌, refl, Option, none, some, List, [], ◌∷◌, ok, arith, length, filter, sum,
  map, all, any, is_some, leb, ltb, ◌==◌, if◌then◌else◌,
}
use work_assistant_agent.Prelude.Dict.{values}
use work_assistant_agent.Usage.Metric.{UsageMetric, complete, partial, unavailable}
use work_assistant_agent.Usage.Run.{ProviderTokenUsage, RunUsage, RunErrorCategory}
use work_assistant_agent.Usage.Ledger.Types.{Attempt, RunUsageLedger}
use work_assistant_agent.Usage.Snapshot.{
  reported, known, metric_of, token_metric, retry_count, snapshot,
}
use work_assistant_agent.Usage.Snapshot.Total.{snapshot_taken, length-known}

abbrev pub value_or_zero : Option ℕ → ℕ
value_or_zero none = 0
value_or_zero (some v) = v

-- The figure of a field: the sum where every attempt reports it, and no value else.
abbrev pub figure : List (Option ℕ) → UsageMetric
figure reports =
    if all is_some reports
    then record { value = some (sum (map value_or_zero reports)); availability = complete }
    else if any is_some reports
    then record { value = none; availability = partial }
    else record { value = none; availability = unavailable }

known-all :
    (reports : List (Option ℕ)) → (length (known reports) == length reports) ≡ all is_some reports
known-all [] = refl
known-all (none ∷ reports) = ground (arith, length-known reports)
known-all (some v ∷ reports) = ground (arith, known-all reports)

known-sum : (reports : List (Option ℕ)) → sum (known reports) ≡ sum (map value_or_zero reports)
known-sum [] = refl
known-sum (none ∷ reports) = omega (arith, known-sum reports)
known-sum (some v ∷ reports) = omega (arith, known-sum reports)

known-any : (reports : List (Option ℕ)) → ltb 0 (length (known reports)) ≡ any is_some reports
known-any [] = refl
known-any (none ∷ reports) = known-any reports
known-any (some v ∷ reports) = ground arith

pub metric_of-figure : (reports : List (Option ℕ)) → metric_of reports ≡ ok (figure reports)
unfolding metric_of
metric_of-figure reports = ground (arith, known-all reports, known-sum reports, known-any reports)

token_metric-figure :
    (field : ProviderTokenUsage → Option ℕ) (attempts : List Attempt) {m : UsageMetric}
    → token_metric field attempts ≡ ok m
    → m ≡ figure (map (reported field) attempts)
unfolding token_metric
token_metric-figure field [] h = ground (arith, h)
token_metric-figure field (a ∷ attempts) h =
    ground (arith, h, metric_of-figure (map (reported field) (a ∷ attempts)))

-- The attempts that are the first of their call, beside those that are counted as retries.
retry_count-first :
    (attempts : List Attempt)
    → retry_count attempts + length (filter (λ (a : Attempt). leb a.start.attempt_index 1) attempts)
      ≡ length attempts
unfolding retry_count
retry_count-first [] = refl
retry_count-first (a ∷ attempts) = ground (arith, retry_count-first attempts)

-- The snapshot `u` of a ledger.
pub record IsSnapshot (now : ℕ) (category : Option RunErrorCategory) (l : RunUsageLedger)
    (u : RunUsage) : Type 0 where
  pub retries : ℕ
  pub counted : u.model_call_count ≡ some (length l.attempts)
  pub retried : u.retry_count ≡ some retries
  pub first_or_retry :
      retries + length (filter (λ (a : Attempt). leb a.start.attempt_index 1) (values l.attempts))
      ≡ length (values l.attempts)
  pub input_is : u.input_tokens ≡ figure (map (reported (λ p. p.input_tokens)) (values l.attempts))
  pub output_is :
      u.output_tokens ≡ figure (map (reported (λ p. p.output_tokens)) (values l.attempts))
  pub cached_is :
      u.cached_tokens ≡ figure (map (reported (λ p. p.cached_tokens)) (values l.attempts))
  pub reasoning_is :
      u.reasoning_tokens ≡ figure (map (reported (λ p. p.reasoning_tokens)) (values l.attempts))
  pub total_is : u.total_tokens ≡ figure (map (reported (λ p. p.total_tokens)) (values l.attempts))
  pub lasted : u.run_duration_ms ≡ some ((now - l.started_at) / 1000)
  pub categorized : u.error_category ≡ category

-- At any time a ledger has a snapshot: its validator never refuses it. The snapshot counts every
-- attempt once; every attempt that is not the first of its call is a retry, and no other; each token
-- figure is the sum of what the attempts report where they all report it, and has no value else;
-- the duration runs from the start of the ledger, and the error category is the one that it was given.
pub snapshot_total :
    (now : ℕ) (category : Option RunErrorCategory) (l : RunUsageLedger)
    → (u : RunUsage) × (snapshot now category l ≡ ok u) × IsSnapshot now category l u
snapshot_total now category l =
    let attempts = values l.attempts in
    let (u, snapped, counted, retried, i, o, c, r, t, lasted, categorized) =
      snapshot_taken now category l in
    (
      u,
      snapped,
      record {
        retries = retry_count attempts;
        counted = counted;
        retried = retried;
        first_or_retry = retry_count-first attempts;
        input_is = token_metric-figure (λ p. p.input_tokens) attempts i;
        output_is = token_metric-figure (λ p. p.output_tokens) attempts o;
        cached_is = token_metric-figure (λ p. p.cached_tokens) attempts c;
        reasoning_is = token_metric-figure (λ p. p.reasoning_tokens) attempts r;
        total_is = token_metric-figure (λ p. p.total_tokens) attempts t;
        lasted = lasted;
        categorized = categorized;
      },
    )
