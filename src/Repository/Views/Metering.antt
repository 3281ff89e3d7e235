-- ===== src/Repository/Views/Metering.antt =====
-- The terminal usage of a Run, which is added up from its rows, beside the snapshot of its ledger,
-- which is added up in memory (backend/src/work_assistant/usage.py). The rows have their times from
-- the wall clock and the ledger from a monotonic one, so the durations of the two are not compared.
use work_assistant_agent.Prelude.{
  ℕ, ◌≡◌, refl, sym, ap, ◌∙◌, Bool, false, String, Option, none, some, List, [], ◌∷◌, ok, length,
  filter, length-filter, map, ltb, arith,
}
use work_assistant_agent.Prelude.Dict.{values}
use work_assistant_agent.Prelude.Sorting.{sort_by}
use work_assistant_agent.Usage.Metric.{UsageMetric}
use work_assistant_agent.Usage.Run.{
  ProviderTokenUsage, RunUsage, RunErrorCategory, is_open_metric, validate_state,
  metering_schema_version, UsageState,
}
use work_assistant_agent.Usage.Ledger.Types.{Attempt, RunUsageLedger}
use work_assistant_agent.Usage.Snapshot.{reported, metric_of, token_metric, snapshot, retry_count}
use work_assistant_agent.Usage.Snapshot.Total.{snapshot_taken, token_metric_closed, length-values}
use work_assistant_agent.Repository.Records.{RunRecord, Store, ModelAttemptRecord}
use work_assistant_agent.Repository.Views.{
  attempt_token_metric, terminal_run_usage, attempts_of, is_answer, answer_duration, elapsed_ms,
}
use work_assistant_agent.Repository.Views.Order.{
  metric_of-eq, length-map, length-sort_by, length-filter-sort_by, known-sort_by,
  attempt_token_metric-eq,
}
use work_assistant_agent.Repository.Attempts.{no_tokens, token_values}

-- The numbers and the tokens of an attempt, as its row and as the ledger have them.
pub record Reported : Type 0 where
  pub call_index : ℕ
  pub attempt_index : ℕ
  pub tokens : ProviderTokenUsage

abbrev pub of_row : ModelAttemptRecord → Reported
of_row a = record { call_index = a.call_index; attempt_index = a.attempt_index; tokens = a.tokens }

abbrev pub of_attempt : Attempt → Reported
of_attempt a = record {
  call_index = a.start.call_index;
  attempt_index = a.start.attempt_index;
  tokens = token_values a.usage;
}

map-map :
    {A B C : Type 0} (g : B → C) (f : A → B) (xs : List A)
    → map g (map f xs) ≡ map (λ x. g (f x)) xs
map-map g f [] = refl
map-map g f (x ∷ xs) = ap (λ l. g (f x) ∷ l) (map-map g f xs)

length-filter-map :
    {A B : Type 0} (p : B → Bool) (f : A → B) (xs : List A)
    → length (filter p (map f xs)) ≡ length (filter (λ x. p (f x)) xs)
length-filter-map p f [] = refl
length-filter-map p f (x ∷ xs) = ground (arith, length-filter-map p f xs)

module _ (field : ProviderTokenUsage → Option ℕ) (empty : field no_tokens ≡ none) where
  field_values :
      (u : Option ProviderTokenUsage)
      → field (token_values u) ≡ (elim u [ none ↦ none | some v ↦ field v ])
  field_values none = empty
  field_values (some v) = refl

  columns : (l : List Attempt) → map (λ a. field (token_values a.usage)) l ≡ map (reported field) l
  columns [] = refl
  columns (a ∷ l) = rw (field_values a.usage, columns l) refl

  token_metric-eq : (l : List Attempt) → token_metric field l ≡ metric_of (map (reported field) l)
  unfolding token_metric metric_of
  token_metric-eq [] = refl
  token_metric-eq (a ∷ l) = refl

  -- The figure of the rows is the figure of the attempts, in any order of these.
  same_figure :
      (rows : List ModelAttemptRecord) (before : Attempt → Attempt → Bool) (l : List Attempt)
      → map of_row rows ≡ map of_attempt (sort_by before l)
      → attempt_token_metric field rows ≡ token_metric field l
  same_figure rows before l same =
      let (n, s) = known-sort_by before (reported field) l in
      let sorted = sort_by before l in
      attempt_token_metric-eq field rows
      ∙ ap metric_of (
          sym (map-map (λ (x : Reported). field x.tokens) of_row rows)
          ∙ ap (map (λ (x : Reported). field x.tokens)) same
          ∙ map-map (λ (x : Reported). field x.tokens) of_attempt sorted
          ∙ columns sorted)
      ∙ metric_of-eq (map (reported field) sorted) (map (reported field) l)
          (length-map (reported field) sorted
            ∙ length-sort_by before l
            ∙ sym (length-map (reported field) l))
          n s
      ∙ sym (token_metric-eq l)

module _ (rows : List ModelAttemptRecord) (before : Attempt → Attempt → Bool) (l : List Attempt)
    (same : map of_row rows ≡ map of_attempt (sort_by before l)) where
  same_length : length rows ≡ length l
  same_length =
      sym (length-map of_row rows)
      ∙ ap length same
      ∙ length-map of_attempt (sort_by before l)
      ∙ length-sort_by before l

  same_retries :
      length (filter (λ (a : ModelAttemptRecord). ltb 1 a.attempt_index) rows) ≡ retry_count l
  unfolding retry_count
  same_retries =
      let is_retry = λ (x : Reported). ltb 1 x.attempt_index in
      sym (length-filter-map is_retry of_row rows)
      ∙ ap (λ xs. length (filter is_retry xs)) same
      ∙ length-filter-map is_retry of_attempt (sort_by before l)
      ∙ length-filter-sort_by before (λ a. ltb 1 a.start.attempt_index) l

-- Two usages but for their durations.
pub record SameFigures (u v : RunUsage) : Type 0 where
  pub calls : u.model_call_count ≡ v.model_call_count
  pub retries : u.retry_count ≡ v.retry_count
  pub input : u.input_tokens ≡ v.input_tokens
  pub output : u.output_tokens ≡ v.output_tokens
  pub cached : u.cached_tokens ≡ v.cached_tokens
  pub reasoning : u.reasoning_tokens ≡ v.reasoning_tokens
  pub total : u.total_tokens ≡ v.total_tokens
  pub category : u.error_category ≡ v.error_category

-- The usage of the rows, given their figures.
terminal_run_usage-taken :
    (r : RunRecord) (rows : List ModelAttemptRecord) (end : ℕ) (category : Option RunErrorCategory)
    (i o c q t : UsageMetric)
    → attempt_token_metric (λ p. p.input_tokens) rows ≡ ok i
    → attempt_token_metric (λ p. p.output_tokens) rows ≡ ok o
    → attempt_token_metric (λ p. p.cached_tokens) rows ≡ ok c
    → attempt_token_metric (λ p. p.reasoning_tokens) rows ≡ ok q
    → attempt_token_metric (λ p. p.total_tokens) rows ≡ ok t
    → is_open_metric i ≡ false
    → is_open_metric o ≡ false
    → is_open_metric c ≡ false
    → is_open_metric q ≡ false
    → is_open_metric t ≡ false
    → (u : RunUsage) × (terminal_run_usage r rows end category ≡ ok u)
      × (u.model_call_count ≡ some (length rows))
      × (u.retry_count
          ≡ some (length (filter (λ (a : ModelAttemptRecord). ltb 1 a.attempt_index) rows)))
      × (u.input_tokens ≡ i)
      × (u.output_tokens ≡ o)
      × (u.cached_tokens ≡ c)
      × (u.reasoning_tokens ≡ q)
      × (u.total_tokens ≡ t)
      × (u.error_category ≡ category)
unfolding terminal_run_usage validate_state
terminal_run_usage-taken r rows end category i o c q t pi po pc pq pt ci co cc' cq ct =
    let u : RunUsage = record {
      schema_version = some metering_schema_version;
      state = UsageState.final;
      model_call_count = some (length rows);
      retry_count = some (length (filter (λ (a : ModelAttemptRecord). ltb 1 a.attempt_index) rows));
      input_tokens = i;
      output_tokens = o;
      cached_tokens = c;
      reasoning_tokens = q;
      total_tokens = t;
      time_to_first_visible_ms = elapsed_ms r.created_at r.first_visible_at;
      generation_duration_ms = answer_duration (filter is_answer rows);
      run_duration_ms = elapsed_ms r.created_at (some end);
      error_category = category;
    } in
    let few = length-filter (λ (a : ModelAttemptRecord). ltb 1 a.attempt_index) rows in
    (
      u,
      rw (pi, po, pc, pq, pt) (unfold elapsed_ms in ground (arith, few, ci, co, cc', cq, ct)),
      refl,
      refl,
      refl,
      refl,
      refl,
      refl,
      refl,
      refl,
    )

closed :
    (field : ProviderTokenUsage → Option ℕ) (l : List Attempt) {m : UsageMetric}
    → token_metric field l ≡ ok m
    → is_open_metric m ≡ false
closed field l h = let (m', found, c) = token_metric_closed field l in ground (arith, h, found, c)

-- The usage that a Run ends with, added up from its rows, agrees with the snapshot of its ledger,
-- added up in memory: if the rows of the Run, in the order of the query, hold the numbers and the
-- tokens of the attempts of the ledger, sorted by some test, then both are computed without an error,
-- at whatever times, with the same number of calls and of retries, the same five token figures
-- and the same error category. (Their durations are measured by different clocks.)
pub terminal_run_usage_figures :
    (run_id : String) (r : RunRecord) (s : Store) (end now : ℕ) (category : Option RunErrorCategory)
    (before : Attempt → Attempt → Bool) (l : RunUsageLedger)
    → map of_row (attempts_of run_id s) ≡ map of_attempt (sort_by before (values l.attempts))
    → (u : RunUsage) × (v : RunUsage) × (terminal_run_usage r (attempts_of run_id s) end category
        ≡ ok u)
      × (snapshot now category l ≡ ok v)
      × SameFigures u v
terminal_run_usage_figures run_id r s end now category before l same =
    let rows = attempts_of run_id s in
    let attempts = values l.attempts in
    let (v, snapped, counted, retried, pi, po, pc, pq, pt, _, categorized) =
      snapshot_taken now category l in
    let (u, added, calls, retries, i, o, c, q, t, categorized') =
      terminal_run_usage-taken r rows end category v.input_tokens v.output_tokens v.cached_tokens
        v.reasoning_tokens v.total_tokens
        (same_figure (λ p. p.input_tokens) refl rows before attempts same ∙ pi)
        (same_figure (λ p. p.output_tokens) refl rows before attempts same ∙ po)
        (same_figure (λ p. p.cached_tokens) refl rows before attempts same ∙ pc)
        (same_figure (λ p. p.reasoning_tokens) refl rows before attempts same ∙ pq)
        (same_figure (λ p. p.total_tokens) refl rows before attempts same ∙ pt)
        (closed (λ p. p.input_tokens) attempts pi) (closed (λ p. p.output_tokens) attempts po)
        (closed (λ p. p.cached_tokens) attempts pc) (closed (λ p. p.reasoning_tokens) attempts pq)
        (closed (λ p. p.total_tokens) attempts pt) in
    (
      u,
      v,
      added,
      snapped,
      record {
        calls =
            calls
            ∙ ap some (same_length rows before attempts same ∙ length-values l.attempts)
            ∙ sym counted;
        retries = retries ∙ ap some (same_retries rows before attempts same) ∙ sym retried;
        input = i;
        output = o;
        cached = c;
        reasoning = q;
        total = t;
        category = categorized' ∙ sym categorized;
      },
    )
