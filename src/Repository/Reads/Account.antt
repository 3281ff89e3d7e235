-- ===== src/Repository/Reads/Account.antt =====
-- `get_account_usage` of backend/src/work_assistant/repository.py, without the display of the
-- account. Times are in microseconds; a clock that reads less than the days that are subtracted
-- from it is not modelled (`datetime` would raise).
use work_assistant_agent.Prelude.{
  ℕ, ◌-◌, ◌*◌, Bool, true, false, ◌&&◌, String, Option, none, some, List, filter, length, map, ok,
  err, leb, str_eq, if◌then◌else◌,
}
use work_assistant_agent.Prelude.Dict.{lookup}
use work_assistant_agent.Prelude.Sorting.{sort_by}
use work_assistant_agent.Capabilities.Decision.{Principal}
use work_assistant_agent.Usage.Metric.{UsageMetric, aggregate_usage_metrics}
use work_assistant_agent.Usage.Run.{RunUsage}
use work_assistant_agent.Repository.Records.{
  RunStatus, is_active, Store, RunRecord, resource_not_found, Checked,
}
use work_assistant_agent.Repository.Access.{require_available, ◌|>=◌, ◌|>◌}
use work_assistant_agent.Repository.Views.{run_view, usage_count_metric, built, in_order}
use work_assistant_agent.Repository.Reads.{check_each}

pub data UsageRange : Type 0 where
  week month all_time : UsageRange

-- `timedelta(days=1)`
abbrev day : ℕ
day = 86400000000

unfoldable pub cutoff : UsageRange → ℕ → Option ℕ
cutoff week now = some (now - 7 * day)
cutoff month now = some (now - 30 * day)
cutoff all_time now = none

pub record RunCounts : Type 0 where
  pub total : ℕ
  pub completed : ℕ
  pub failed : ℕ
  pub cancelled : ℕ
  pub active : ℕ

pub record AccountUsage : Type 0 where
  pub from_at : Option ℕ
  pub to_at : ℕ
  pub thread_id : Option String
  pub runs : RunCounts
  pub model_calls : UsageMetric
  pub retries : UsageMetric
  pub input_tokens : UsageMetric
  pub output_tokens : UsageMetric
  pub cached_tokens : UsageMetric
  pub reasoning_tokens : UsageMetric
  pub total_tokens : UsageMetric

-- A thread that is not there and one of another owner have the same answer.
unfoldable pub require_scope : Principal → Option String → Store → Checked (Unit {0})
require_scope principal none s = ok tt
require_scope principal (some id) s = elim (lookup id s.threads) [
  | none ↦ err (resource_not_found "usage_scope")
  | some t ↦
      if str_eq t.owner_subject principal.subject
      then ok tt
      else err (resource_not_found "usage_scope")
]

abbrev from_on : Option ℕ → ℕ → Bool
from_on none at = true
from_on (some start) at = leb start at

abbrev in_thread : Option String → String → Bool
in_thread none id = true
in_thread (some t) id = str_eq id t

-- The conditions of the query, of one Run.
unfoldable pub counts_for :
    Principal → ℕ → Option ℕ → Option String → Store → String × RunRecord → Bool
counts_for principal now start thread_id s row = elim (lookup row.1.thread_id s.threads) [
  | none ↦ false
  | some t ↦
      str_eq t.owner_subject principal.subject
      && (str_eq row.1.actor_subject principal.subject
          && (leb row.1.created_at now
              && (from_on start row.1.created_at && in_thread thread_id row.1.thread_id)))
]

unfoldable pub account_runs :
    Principal → ℕ → Option ℕ → Option String → Store → List (String × RunRecord)
unfolding counts_for
account_runs principal now start thread_id s =
    sort_by (λ (a b : String × RunRecord). in_order a.1.created_at a.0 b.1.created_at b.0)
      (filter (counts_for principal now start thread_id s) s.runs)

abbrev is_completed : RunStatus → Bool
is_completed RunStatus.completed = true
is_completed _ = false

abbrev is_failed : RunStatus → Bool
is_failed RunStatus.failed = true
is_failed _ = false

abbrev is_cancelled : RunStatus → Bool
is_cancelled RunStatus.cancelled = true
is_cancelled _ = false

abbrev pub count_of : (RunStatus → Bool) → List (String × RunRecord) → ℕ
count_of p rows = length (filter (λ (row : String × RunRecord). p row.1.status) rows)

unfoldable pub run_counts : List (String × RunRecord) → RunCounts
run_counts rows = record {
  total = length rows;
  completed = count_of is_completed rows;
  failed = count_of is_failed rows;
  cancelled = count_of is_cancelled rows;
  active = count_of is_active rows;
}

-- `_run_view(record).usage`
usage_of_row : String × RunRecord → Checked RunUsage
unfolding run_view
usage_of_row row = run_view row.0 row.1 |>= λ v. ok v.usage

-- `aggregate_usage_metrics(usage.field for usage in usages)`
aggregate : (RunUsage → UsageMetric) → List RunUsage → Checked UsageMetric
unfolding aggregate_usage_metrics
aggregate field usages = built (aggregate_usage_metrics (map field usages))

aggregate_counts : (RunUsage → Option ℕ) → List RunUsage → Checked UsageMetric
unfolding check_each usage_count_metric aggregate_usage_metrics
aggregate_counts field usages = check_each (usage_count_metric field) usages |>= λ counts.
    built (aggregate_usage_metrics counts)

unfoldable pub get_account_usage :
    Principal → UsageRange → Option String → ℕ → Store → Checked AccountUsage
unfolding require_available require_scope account_runs cutoff check_each usage_of_row aggregate
    aggregate_counts run_counts
get_account_usage principal usage_range thread_id now s =
    require_available s
    |> require_scope principal thread_id s
    |> (let start = cutoff usage_range now in
        let rows = account_runs principal now start thread_id s in
        check_each usage_of_row rows |>= λ usages.
        aggregate_counts (λ u. u.model_call_count) usages |>= λ calls.
        aggregate_counts (λ u. u.retry_count) usages |>= λ retries.
        aggregate (λ u. u.input_tokens) usages |>= λ input.
        aggregate (λ u. u.output_tokens) usages |>= λ output.
        aggregate (λ u. u.cached_tokens) usages |>= λ cached.
        aggregate (λ u. u.reasoning_tokens) usages |>= λ reasoning.
        aggregate (λ u. u.total_tokens) usages |>= λ total. ok (record {
          from_at = start;
          to_at = now;
          thread_id = thread_id;
          runs = run_counts rows;
          model_calls = calls;
          retries = retries;
          input_tokens = input;
          output_tokens = output;
          cached_tokens = cached;
          reasoning_tokens = reasoning;
          total_tokens = total;
        }))
