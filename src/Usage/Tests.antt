-- ===== src/Usage/Tests.antt =====
-- A ledger with one call and its retry, and the theorems of metering at its states.
use work_assistant_agent.Prelude.{
  ◌≡◌, ◌≢◌, refl, true, false, none, some, [], ◌∷◌, ◌++◌, map, ok, err, if◌then◌else◌,
}
use work_assistant_agent.Prelude.Dict.{lookup, insert, drop_key, values}
use work_assistant_agent.Usage.Metric.{
  UsageMetric, complete, partial, unavailable, aggregate_usage_metrics, has_state, all_complete,
  total_value,
}
use work_assistant_agent.Usage.Metric.Compose.{aggregate_usage_metrics-append}
use work_assistant_agent.Usage.Run.{RunUsage, ProviderTokenUsage}
use work_assistant_agent.Usage.Ledger.{
  new_ledger, bind_persistence, open_attempt, begin_attempt, observe_usage,
}
use work_assistant_agent.Usage.Ledger.Types.{
  Attempt, RunUsageLedger, FinishStatus, Writers, ModelAttemptStart, direct, as_status, same_status,
  same_usage, same_finish, provider_attempt_terminal_conflict,
  provider_attempt_pending_finish_invalid,
}
use work_assistant_agent.Usage.Ledger.Finish.{
  request_finish, finish_locked, finish_attempt, settle_for_terminal,
}
use work_assistant_agent.Usage.Ledger.Invariant.{IsValid}
use work_assistant_agent.Usage.Ledger.Runs.{
  Reach, here, next, opens, resumes, binds, observes, requests, locks, new_ledger-Reach-IsValid,
  Reach-terminal,
}
use work_assistant_agent.Usage.Ledger.Terminal.{finish_attempt-twice, finish_attempt-pending_valid}
use work_assistant_agent.Usage.Ledger.Journal.{IsJournalled, Reach-IsJournalled}
use work_assistant_agent.Usage.Snapshot.{token_metric, reported, snapshot}
use work_assistant_agent.Usage.Snapshot.Figures.{IsSnapshot, snapshot_total}
use work_assistant_agent.Usage.Snapshot.Total.{attempt_metric, token_metric-eq-aggregate}

abbrev writers : Writers
writers = record { write_start = λ s. true; write_finish = λ f. true; write_usage = λ u. true }

abbrev tokens : ProviderTokenUsage
tokens = record {
  input_tokens = some 10;
  output_tokens = some 4;
  cached_tokens = none;
  reasoning_tokens = none;
  total_tokens = some 14;
}

abbrev bound : RunUsageLedger
bound = (bind_persistence writers (new_ledger 0)).1

abbrev begun : RunUsageLedger
begun = (begin_attempt 1 "first" direct none bound).1

abbrev observed : RunUsageLedger
observed = (observe_usage "first" tokens begun).1

abbrev requested : RunUsageLedger
requested = (request_finish 5 "first" FinishStatus.failed observed).1

abbrev failed_once : RunUsageLedger
failed_once = (finish_locked "first" FinishStatus.failed requested).1

abbrev retried : RunUsageLedger
retried = (begin_attempt 6 "second" direct (some "first") failed_once).1

abbrev first_start : ModelAttemptStart
first_start = record { attempt_id = "first"; call_index = 1; attempt_index = 1; call_kind = direct }

abbrev second_start : ModelAttemptStart
second_start = record {
  attempt_id = "second";
  call_index = 1;
  attempt_index = 2;
  call_kind = direct;
}

to_failed : Reach bound failed_once
unfolding new_ledger bind_persistence begin_attempt lookup insert drop_key
to_failed =
    next
      (next
        (next (next (next here (opens "first" direct none refl)) (resumes 1 first_start refl refl))
          (observes "first" tokens))
        (requests 5 "first" FinishStatus.failed))
      (locks "first" FinishStatus.failed)

all_of_it : Reach (new_ledger 0) retried
unfolding new_ledger bind_persistence begin_attempt observe_usage request_finish finish_locked
    same_usage same_finish lookup insert drop_key
all_of_it =
    next
      (next
        (next
          (next
            (next
              (next (next (next here (binds writers)) (opens "first" direct none refl))
                (resumes 1 first_start refl refl))
              (observes "first" tokens))
            (requests 5 "first" FinishStatus.failed))
          (locks "first" FinishStatus.failed))
        (opens "second" direct (some "first") refl))
      (resumes 6 second_start refl refl)

to_retried : Reach failed_once retried
unfolding new_ledger bind_persistence begin_attempt observe_usage request_finish finish_locked
    same_usage same_finish lookup insert drop_key
to_retried =
    next (next here (opens "second" direct (some "first") refl)) (resumes 6 second_start refl refl)

-- The test of two retries of one attempt that wait for the start writer: they have the same numbers.
abbrev racing : RunUsageLedger
racing =
    (open_attempt "third" direct (some "first")
      (open_attempt "second" direct (some "first") failed_once).1).1

same_numbers :
    (lookup "second" racing.begun ≡ some second_start)
    × (lookup "third" racing.begun ≡ some (record second_start { attempt_id = "third" }))
unfolding new_ledger bind_persistence begin_attempt observe_usage request_finish finish_locked
    same_usage same_finish lookup insert drop_key open_attempt
same_numbers = (refl, refl)

new_ledger-Reach-IsValid_example : IsValid retried
new_ledger-Reach-IsValid_example = new_ledger-Reach-IsValid 0 all_of_it

-- The attempt that failed, with what it reported.
abbrev over : Attempt
over = record {
  start = record { attempt_id = "first"; call_index = 1; attempt_index = 1; call_kind = direct };
  started_at = 1;
  status = as_status FinishStatus.failed;
  completed_at = some 5;
  usage = some tokens;
  usage_persisted = true;
  pending_finish = none;
  pending_completed_at = none;
}

Reach-terminal_example : lookup "first" retried.attempts ≡ some over
unfolding new_ledger bind_persistence begin_attempt observe_usage request_finish finish_locked
    same_usage same_finish lookup insert drop_key
Reach-terminal_example = Reach-terminal "first" over to_retried refl refl

Reach-IsJournalled_example : IsJournalled failed_once
Reach-IsJournalled_example = Reach-IsJournalled 0 writers to_failed

abbrev settled_ledger : RunUsageLedger
settled_ledger = (settle_for_terminal requested).1

finish_attempt-twice_example : finish_attempt 9 "first" FinishStatus.succeeded failed_once ≡ (
    if same_status (as_status FinishStatus.failed) (as_status FinishStatus.succeeded)
    then (ok tt, failed_once)
    else (err provider_attempt_terminal_conflict, failed_once))
unfolding new_ledger bind_persistence begin_attempt observe_usage request_finish finish_locked
    same_usage same_finish lookup insert drop_key finish_attempt
finish_attempt-twice_example =
    finish_attempt-twice 5 9 "first" FinishStatus.failed FinishStatus.succeeded observed failed_once
      refl

finish_attempt-pending_valid_example :
    (finish_attempt 7 "second" FinishStatus.succeeded retried).0
    ≢ err provider_attempt_pending_finish_invalid
finish_attempt-pending_valid_example =
    finish_attempt-pending_valid 7 "second" FinishStatus.succeeded retried
      (new_ledger-Reach-IsValid 0 all_of_it)

snapshot_total_example :
    (u : RunUsage) × (snapshot 9000 none retried ≡ ok u) × IsSnapshot 9000 none retried u
snapshot_total_example = snapshot_total 9000 none retried

token_metric-eq-aggregate_example :
    token_metric (λ p. p.input_tokens) (values retried.attempts)
    ≡ aggregate_usage_metrics
        (map attempt_metric (map (reported (λ p. p.input_tokens)) (values retried.attempts)))
token_metric-eq-aggregate_example =
    token_metric-eq-aggregate (λ p. p.input_tokens) (values retried.attempts)

abbrev ten : UsageMetric
ten = record { value = some 10; availability = complete }

abbrev missing : UsageMetric
missing = record { value = none; availability = unavailable }

abbrev some_of_it : UsageMetric
some_of_it = record { value = none; availability = partial }

aggregate_usage_metrics-append_example :
    aggregate_usage_metrics ((ten ∷ ten ∷ []) ++ (ten ∷ missing ∷ []))
    ≡ aggregate_usage_metrics
        (record { value = some 20; availability = complete } ∷ some_of_it ∷ [])
unfolding aggregate_usage_metrics has_state all_complete total_value
aggregate_usage_metrics-append_example =
    aggregate_usage_metrics-append ten ten (ten ∷ []) (missing ∷ [])
      {a = record { value = some 20; availability = complete }} {b = some_of_it} refl refl

-- A usage that is reported between the note of a finish and its write is in no row: the finish row
-- holds the usage of the note, and a terminal attempt is not settled.
abbrev noted_early : RunUsageLedger
noted_early = (request_finish 2 "first" FinishStatus.succeeded begun).1

abbrev late_usage : RunUsageLedger
late_usage = (settle_for_terminal (observe_usage "first" tokens noted_early).1).1

late_usage_unsaved :
    (lookup "first" late_usage.attempts
      ≡ some (record over {
        status = as_status FinishStatus.succeeded;
        completed_at = some 2;
        usage_persisted = false;
      }))
unfolding new_ledger bind_persistence begin_attempt observe_usage request_finish same_usage
    same_finish lookup insert drop_key settle_for_terminal
late_usage_unsaved = refl
