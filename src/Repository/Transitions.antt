-- ===== src/Repository/Transitions.antt =====
-- The ends of a Run: `complete_run`, `fail_run` and `cancel_run` of
-- backend/src/work_assistant/repository.py. Only the transaction that finds the Run active ends it.
use work_assistant_agent.Prelude.{
  ℕ, ◌+◌, ◌-◌, Bool, true, false, ◌&&◌, not, String, Option, none, some, map, ok, err, pure, raise,
  lift, modify, ◌>>=◌, ◌>>◌, any, str_eq, ltb, if◌then◌else◌,
}
use work_assistant_agent.Prelude.Dict.{lookup, values}
use work_assistant_agent.Capabilities.Decision.{Principal}
use work_assistant_agent.Usage.Run.{RunUsage, RunErrorCategory, metering_schema_version}
use work_assistant_agent.Usage.Ledger.Types.{ModelAttemptStatus}
use work_assistant_agent.Policy.Violation.{RunFailureCode}
use work_assistant_agent.Policy.Evidence.{OutcomeStatus, ExecutionOutcomeEvidence, build_outcome}
use work_assistant_agent.Schemas.Payload.{
  MessageRole, Payload, with_message, with_status, code_name,
}
use work_assistant_agent.Repository.Records.{
  RunStatus, is_active, is_running, Store, ThreadRecord, RunRecord, ModelAttemptRecord,
  MessageRecord, policy_kernel_configuration, usage_metering, integrity_error, of_run, Repo,
  Checked, transaction, reads, update_run, put_run, put_thread, add_message,
}
use work_assistant_agent.Repository.Access.{
  require_available, found, ◌|>=◌, ◌|>◌, require_owner, require_internal_run_consistency,
}
use work_assistant_agent.Repository.Views.{
  RunView, run_view, view_usage, message_view, terminal_run_usage, attempts_of,
}
use work_assistant_agent.Repository.Events.{require_run, after_update, record_event}
use work_assistant_agent.Repository.Attempts.{is_started}

-- `validate_execution_outcome`
unfoldable pub validate_execution_outcome :
    ExecutionOutcomeEvidence → Checked ExecutionOutcomeEvidence
unfolding build_outcome
validate_execution_outcome o = elim (build_outcome o) [
  | ok v ↦ ok v
  | err _ ↦ err (policy_kernel_configuration "execution_outcome_invalid")
]

abbrev same_outcome : OutcomeStatus → OutcomeStatus → Bool
same_outcome OutcomeStatus.completed OutcomeStatus.completed = true
same_outcome OutcomeStatus.failed OutcomeStatus.failed = true
same_outcome OutcomeStatus.cancelled OutcomeStatus.cancelled = true
same_outcome _ _ = false

abbrev is_failure : OutcomeStatus → Bool
is_failure OutcomeStatus.failed = true
is_failure _ = false

abbrev same_code : Option RunFailureCode → Option RunFailureCode → Bool
same_code none none = true
same_code (some a) (some b) = str_eq (code_name a) (code_name b)
same_code _ _ = false

-- `_validated_terminal_outcome`
unfoldable pub validated_terminal_outcome :
    ExecutionOutcomeEvidence
    → OutcomeStatus
    → Option RunFailureCode
    → Checked ExecutionOutcomeEvidence
unfolding validate_execution_outcome
validated_terminal_outcome o status failure_code = validate_execution_outcome o |>= λ v.
    if not (same_outcome v.status status)
    then err (policy_kernel_configuration "execution_outcome_status_mismatch")
    else if is_failure status && not (same_code v.failure_code failure_code)
    then err (policy_kernel_configuration "execution_outcome_failure_mismatch")
    else ok v

abbrev is_open_of : String → ModelAttemptRecord → Bool
is_open_of run_id a = str_eq a.run_id run_id && is_started a.status

unfoldable pub closed_attempt :
    String → ModelAttemptStatus → ℕ → ModelAttemptRecord → ModelAttemptRecord
closed_attempt run_id status now a =
    if is_open_of run_id a then record a { status = status; completed_at = some now } else a

-- `UPDATE product_model_attempts`, of the attempts of the Run that are open
unfoldable pub close_attempts : String → ModelAttemptStatus → ℕ → Repo (Unit {0})
unfolding closed_attempt
close_attempts run_id status now s =
    if any (λ (a : ModelAttemptRecord). is_open_of run_id a && ltb now a.started_at)
      (values s.attempts)
    then (err integrity_error, s)
    else (
      ok tt,
      record s {
        attempts =
            map
              (λ (row : String × ModelAttemptRecord).
                (row.0, closed_attempt run_id status now row.1))
              s.attempts;
      },
    )

-- The attempts that are open are closed, and the usage of all is written to the Run.
unfoldable pub settle_run :
    ℕ → ModelAttemptStatus → Option RunErrorCategory → String → RunRecord → Repo RunRecord
unfolding close_attempts reads terminal_run_usage put_run attempts_of
settle_run completed_at open_status category run_id r =
    close_attempts run_id open_status completed_at
    >> reads (λ s. terminal_run_usage r (attempts_of run_id s) completed_at category)
    >>= λ u.
        let metered : RunRecord = record r { usage_metrics = some u } in
        modify (put_run run_id metered) >> pure metered

-- `_write_terminal_usage`; the answer is the Run with its usage.
unfoldable pub write_terminal_usage :
    ℕ → ModelAttemptStatus → Option RunErrorCategory → String → RunRecord → Repo RunRecord
unfolding settle_run
write_terminal_usage completed_at open_status category run_id r = elim r.metering_version [
  | none ↦ pure r
  | some version ↦
      if not (str_eq version metering_schema_version)
      then raise (usage_metering "run_metering_version_unsupported")
      else settle_run completed_at open_status category run_id r
]

unfoldable pub ended_run :
    RunStatus → ℕ → ℕ → Option ExecutionOutcomeEvidence → RunRecord → RunRecord
ended_run status now events outcome r = record r {
  status = status;
  completed_at = some now;
  last_seq = r.last_seq + events;
  execution_outcome = outcome;
}

abbrev pub touch_thread : String → ThreadRecord → ℕ → Repo (Unit {0})
touch_thread id t now = modify (put_thread id (record t { updated_at = now }))

-- `{"status": ..., "error_code": ..., "usage": ...}`
abbrev pub terminal_data : String → Option RunFailureCode → RunUsage → Payload
terminal_data status code usage = with_status (record {
  status = status;
  error_code = elim code [ none ↦ none | some c ↦ some (code_name c) ];
  usage = some usage;
})

unfoldable pub view_of : String → RunRecord → Repo RunView
unfolding run_view
view_of run_id r = lift (run_view run_id r)

-- The guarded update of a Run, and what follows it; a Run that is not in the state is answered as it
-- is.
unfoldable pub claim :
    String
    → (RunRecord → Bool)
    → (RunRecord → RunRecord)
    → (RunRecord → Repo RunRecord)
    → Repo RunRecord
unfolding update_run reads require_run
claim run_id guard change body = update_run run_id guard change >>= λ updated.
    after_update updated (reads (require_run run_id)) body

-- The ids of the message and of the two events of a completion.
pub record CompletionIds : Type 0 where
  pub message : String
  pub message_event : String
  pub run_event : String

abbrev pub answer_message : String → String → ℕ → RunRecord → MessageRecord
answer_message run_id content now r = record {
  thread_id = r.thread_id;
  run_id = some run_id;
  role = MessageRole.assistant;
  content = content;
  created_at = now;
}

-- What `complete_run` does with the Run that it completed.
unfoldable pub completed_with :
    CompletionIds → String → String → Option RunErrorCategory → ℕ → RunRecord → Repo RunRecord
unfolding write_terminal_usage reads view_usage require_internal_run_consistency record_event
    put_thread add_message message_view
completed_with ids run_id content category now claimed =
    write_terminal_usage now ModelAttemptStatus.interrupted category run_id claimed >>= λ r.
    lift (view_usage r) >>= λ usage. reads (require_internal_run_consistency false r) >>= λ t.
    let message = answer_message run_id content now r in
    add_message ids.message message
    >> record_event ids.message_event run_id r "message.completed"
        (with_message (message_view ids.message message)) (r.last_seq - 1) now
    >> record_event ids.run_event run_id r "run.completed" (terminal_data "completed" none usage)
        r.last_seq now
    >> touch_thread r.thread_id t now
    >> pure r

unfoldable pub complete_run :
    CompletionIds
    → String
    → String
    → ExecutionOutcomeEvidence
    → Option RunErrorCategory
    → ℕ
    → Repo RunView
unfolding transaction claim ended_run reads require_available completed_with
    validated_terminal_outcome view_of
complete_run ids run_id content outcome category now =
    reads require_available
    >> lift (validated_terminal_outcome outcome OutcomeStatus.completed none)
    >>= λ validated.
        transaction (
          claim run_id (λ r. is_running r.status)
            (ended_run RunStatus.completed now 2 (some validated))
            (completed_with ids run_id content category now))
        >>= view_of run_id

unfoldable pub failed_with :
    String → String → RunFailureCode → Option RunErrorCategory → ℕ → RunRecord → Repo RunRecord
unfolding write_terminal_usage reads view_usage require_internal_run_consistency record_event
    put_thread
failed_with event_id run_id code category now claimed =
    write_terminal_usage now ModelAttemptStatus.failed category run_id claimed >>= λ r.
    lift (view_usage r) >>= λ usage. reads (require_internal_run_consistency false r) >>= λ t.
    record_event event_id run_id r "run.failed" (terminal_data "failed" (some code) usage)
      r.last_seq now
    >> touch_thread r.thread_id t now
    >> pure r

unfoldable pub fail_run :
    String
    → String
    → RunFailureCode
    → ExecutionOutcomeEvidence
    → Option RunErrorCategory
    → ℕ
    → Repo RunView
unfolding transaction claim ended_run reads require_available failed_with validated_terminal_outcome
    view_of
fail_run event_id run_id code outcome category now =
    reads require_available
    >> lift (validated_terminal_outcome outcome OutcomeStatus.failed (some code))
    >>= λ validated.
        transaction (
          claim run_id (λ r. is_active r.status) (ended_run RunStatus.failed now 1 (some validated))
            (failed_with event_id run_id code category now))
        >>= view_of run_id

-- Who may cancel: the owner of the thread who is also the actor of the Run.
unfoldable pub require_cancel : Principal → String → Store → Checked ThreadRecord
unfolding require_run require_owner
require_cancel principal run_id s = require_run run_id s |>= λ r.
    found "run" (lookup r.thread_id s.threads) |>= λ t.
    require_owner principal t.owner_subject of_run
    |> require_owner principal r.actor_subject of_run
    |> ok t

unfoldable pub cancelled_with :
    String → String → Option RunErrorCategory → ℕ → ThreadRecord → RunRecord → Repo RunRecord
unfolding write_terminal_usage view_usage record_event put_thread
cancelled_with event_id run_id category now t claimed =
    write_terminal_usage now ModelAttemptStatus.cancelled category run_id claimed >>= λ r.
    lift (view_usage r) >>= λ usage.
    record_event event_id run_id r "run.cancelled" (terminal_data "cancelled" none usage) r.last_seq
      now
    >> touch_thread r.thread_id t now
    >> pure r

unfoldable pub cancel_run :
    String
    → String
    → Principal
    → ExecutionOutcomeEvidence
    → Option RunErrorCategory
    → ℕ
    → Repo RunView
unfolding transaction claim ended_run reads require_available cancelled_with
    validated_terminal_outcome view_of require_cancel
cancel_run event_id run_id principal outcome category now =
    reads require_available
    >> lift (validated_terminal_outcome outcome OutcomeStatus.cancelled none)
    >>= λ validated.
        transaction (
          reads (require_cancel principal run_id) >>= λ t.
          claim run_id (λ r. is_active r.status)
            (ended_run RunStatus.cancelled now 1 (some validated))
            (cancelled_with event_id run_id category now t))
        >>= view_of run_id
