-- ===== src/Repository/Attempts.antt =====
-- The rows of model attempts: `start_model_attempt`, `finish_model_attempt` and
-- `record_model_attempt_usage` of backend/src/work_assistant/repository.py.
use work_assistant_agent.Prelude.{
  ℕ, Bool, true, false, ◌&&◌, ◌||◌, not, String, Option, none, some, [], ◌∷◌, ok, err, pure, raise,
  gets, ◌>>=◌, ◌>>◌, str_eq, is_some, if◌then◌else◌,
}
use work_assistant_agent.Prelude.Dict.{Dict, lookup}
use work_assistant_agent.Usage.Run.{ProviderTokenUsage, metering_schema_version}
use work_assistant_agent.Usage.Ledger.Types.{
  ModelCallKind, direct, decision, finalizer, ModelAttemptStatus, ModelAttemptStart,
  ModelAttemptFinish, ModelAttemptUsage, as_status, same_status, same_usage,
}
use work_assistant_agent.Repository.Records.{
  is_active, is_running, Store, RunRecord, ModelAttemptRecord, usage_metering, Repo, Checked,
  transaction, reads, same_position, add_attempt, put_attempt,
}
use work_assistant_agent.Repository.Access.{require_available, require_internal_run_consistency}
use work_assistant_agent.Repository.Events.{require_run}

-- `run.metering_version == METERING_SCHEMA_VERSION`
abbrev pub is_metered : Option String → Bool
is_metered none = false
is_metered (some v) = str_eq v metering_schema_version

abbrev pub same_kind : ModelCallKind → ModelCallKind → Bool
same_kind direct direct = true
same_kind decision decision = true
same_kind finalizer finalizer = true
same_kind _ _ = false

abbrev pub is_started : ModelAttemptStatus → Bool
is_started s = same_status s ModelAttemptStatus.started

abbrev pub no_tokens : ProviderTokenUsage
no_tokens = record {
  input_tokens = none;
  output_tokens = none;
  cached_tokens = none;
  reasoning_tokens = none;
  total_tokens = none;
}

-- `token_values`
abbrev pub token_values : Option ProviderTokenUsage → ProviderTokenUsage
token_values none = no_tokens
token_values (some u) = u

-- The row with the id or at the place of a start.
unfoldable pub existing_attempt :
    String → ModelAttemptStart → Dict ModelAttemptRecord → Option (String × ModelAttemptRecord)
unfolding same_position
existing_attempt run_id start [] = none
existing_attempt run_id start ((id, a) ∷ rows) =
    if str_eq id start.attempt_id || same_position run_id start.call_index start.attempt_index a
    then some (id, a)
    else existing_attempt run_id start rows

unfoldable pub is_same_start : String → ModelAttemptStart → String → ModelAttemptRecord → Bool
unfolding same_position
is_same_start run_id start id a =
    str_eq id start.attempt_id
    && (same_position run_id start.call_index start.attempt_index a
        && (same_kind a.call_kind start.call_kind && is_started a.status))

abbrev pub new_attempt : String → ModelAttemptStart → ℕ → RunRecord → ModelAttemptRecord
new_attempt run_id start now r = record {
  run_id = run_id;
  thread_id = r.thread_id;
  call_index = start.call_index;
  attempt_index = start.attempt_index;
  call_kind = start.call_kind;
  status = ModelAttemptStatus.started;
  started_at = now;
  completed_at = none;
  tokens = no_tokens;
}

unfoldable pub insert_start : String → ModelAttemptStart → ℕ → RunRecord → Repo (Unit {0})
unfolding existing_attempt is_same_start add_attempt
insert_start run_id start now r =
    gets (λ (s : Store). existing_attempt run_id start s.attempts) >>= λ existing. elim existing [
      | some row ↦
          if is_same_start run_id start row.0 row.1
          then pure tt
          else raise (usage_metering "model_attempt_start_conflict")
      | none ↦ add_attempt start.attempt_id (new_attempt run_id start now r)
    ]

unfoldable pub start_model_attempt : String → ModelAttemptStart → ℕ → Repo (Unit {0})
unfolding transaction reads require_available require_run require_internal_run_consistency
    insert_start
start_model_attempt run_id start now =
    reads require_available
    >> transaction (
        reads (require_run run_id) >>= λ r.
        reads (require_internal_run_consistency false r)
        >> (if not (is_running r.status) || not (is_metered r.metering_version)
            then raise (usage_metering "model_attempt_run_not_meterable")
            else insert_start run_id start now r))

-- `session.get(ModelAttemptRecord, attempt_id)`, of this Run
unfoldable pub attempt_of_run : String → String → String → Store → Checked ModelAttemptRecord
attempt_of_run unknown run_id id s = elim (lookup id s.attempts) [
  | none ↦ err (usage_metering unknown)
  | some a ↦ if str_eq a.run_id run_id then ok a else err (usage_metering unknown)
]

unfoldable pub finished_attempt : ModelAttemptFinish → ℕ → ModelAttemptRecord → ModelAttemptRecord
finished_attempt finish now a = record a {
  status = as_status finish.status;
  completed_at = some now;
  tokens = token_values finish.usage;
}

unfoldable pub close_attempt : ModelAttemptFinish → ℕ → ModelAttemptRecord → Repo Bool
unfolding same_usage put_attempt finished_attempt
close_attempt finish now a =
    if not (is_started a.status)
    then if same_status a.status (as_status finish.status)
        && same_usage a.tokens (token_values finish.usage)
      then pure true
      else raise (usage_metering "model_attempt_finish_conflict")
    else put_attempt finish.attempt_id (finished_attempt finish now a) >> pure true

unfoldable pub finish_model_attempt : String → ModelAttemptFinish → ℕ → Repo Bool
unfolding transaction reads require_available require_run require_internal_run_consistency
    attempt_of_run close_attempt
finish_model_attempt run_id finish now =
    reads require_available
    >> transaction (
        reads (require_run run_id) >>= λ r.
        reads (require_internal_run_consistency false r)
        >> reads (attempt_of_run "model_attempt_finish_unknown" run_id finish.attempt_id)
        >>= λ a. if not (is_active r.status) then pure false else close_attempt finish now a)

-- `any(value is not None for value in existing.values())`
unfoldable pub has_tokens : ProviderTokenUsage → Bool
has_tokens u =
    is_some u.input_tokens
    || (is_some u.output_tokens
        || (is_some u.cached_tokens || (is_some u.reasoning_tokens || is_some u.total_tokens)))

unfoldable pub observe_attempt : ModelAttemptUsage → ModelAttemptRecord → Repo Bool
unfolding has_tokens same_usage put_attempt
observe_attempt observed a =
    if has_tokens a.tokens
    then if same_usage a.tokens observed.usage
      then pure true
      else raise (usage_metering "model_attempt_usage_conflict")
    else if not (is_started a.status)
    then raise (usage_metering "model_attempt_usage_terminal")
    else put_attempt observed.attempt_id (record a { tokens = observed.usage }) >> pure true

unfoldable pub record_model_attempt_usage : String → ModelAttemptUsage → Repo Bool
unfolding transaction reads require_available require_run require_internal_run_consistency
    attempt_of_run observe_attempt
record_model_attempt_usage run_id observed =
    reads require_available
    >> transaction (
        reads (require_run run_id) >>= λ r.
        reads (require_internal_run_consistency false r)
        >> reads (attempt_of_run "model_attempt_usage_unknown" run_id observed.attempt_id)
        >>= λ a. if not (is_active r.status) then pure false else observe_attempt observed a)
