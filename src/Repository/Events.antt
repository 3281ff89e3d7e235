-- ===== src/Repository/Events.antt =====
-- The start of a Run and the events while it runs: `start_run`, `append_active_event` and
-- `_event_record` of backend/src/work_assistant/repository.py.
use work_assistant_agent.Prelude.{
  ℕ, ◌+◌, Bool, true, false, String, Option, none, some, ok, pure, lift, ◌>>=◌, ◌>>◌, str_eq,
  if◌then◌else◌,
}
use work_assistant_agent.Prelude.Dict.{lookup}
use work_assistant_agent.Schemas.Payload.{
  Payload, with_status, validate_product_event, validate_runtime_event,
}
use work_assistant_agent.Repository.Records.{
  RunStatus, is_created, is_running, Store, RunRecord, EventRecord, Repo, Checked, transaction,
  reads, update_run, add_event,
}
use work_assistant_agent.Repository.Access.{
  require_available, found, ◌|>=◌, require_internal_run_consistency,
}
use work_assistant_agent.Repository.Views.{EventEnvelope, accepted, event_view}

-- `_event_record`; the sequence number and the time are always given here.
unfoldable pub event_record : String → RunRecord → String → Payload → ℕ → ℕ → Checked EventRecord
event_record run_id r event_type payload seq occurred_at =
    accepted (validate_product_event event_type payload) |>= λ validated. ok (record {
      run_id = run_id;
      thread_id = r.thread_id;
      seq = seq;
      type = event_type;
      occurred_at = occurred_at;
      payload = validated;
    })

-- `session.add(self._event_record(...))`
unfoldable pub record_event :
    String → String → RunRecord → String → Payload → ℕ → ℕ → Repo EventRecord
unfolding event_record add_event
record_event event_id run_id r event_type payload seq occurred_at =
    lift (event_record run_id r event_type payload seq occurred_at) >>= λ event.
    add_event event_id event >> pure event

-- The answer where no row was updated: the Run is not there, or not in the state for it.
unfoldable pub require_run : String → Store → Checked RunRecord
require_run run_id s = found "run" (lookup run_id s.runs)

abbrev pub after_update : {A : Type 0} → Option RunRecord → Repo A → (RunRecord → Repo A) → Repo A
after_update none missed body = missed
after_update (some r) missed body = body r

unfoldable pub started_run : RunRecord → RunRecord
started_run r = record r { status = RunStatus.running; last_seq = r.last_seq + 1 }

-- `{"status": "running"}`
abbrev pub status_only : String → Payload
status_only status = with_status (record { status = status; error_code = none; usage = none })

-- The event of a Run that was started.
unfoldable pub started_with : String → String → ℕ → RunRecord → Repo Bool
unfolding reads require_internal_run_consistency record_event
started_with event_id run_id now r =
    reads (require_internal_run_consistency false r)
    >> record_event event_id run_id r "run.started" (status_only "running") r.last_seq now
    >> pure true

unfoldable pub start_run : String → String → ℕ → Repo Bool
unfolding transaction update_run started_run reads require_available started_with require_run
start_run event_id run_id now =
    reads require_available
    >> transaction (
        update_run run_id (λ r. is_created r.status) started_run >>= λ updated.
        after_update updated (reads (require_run run_id) >> pure false)
          (started_with event_id run_id now))

-- `CASE WHEN first_visible_at IS NULL THEN now ELSE first_visible_at END`, for a delta
unfoldable pub first_visible : String → ℕ → Option ℕ → Option ℕ
first_visible event_type now none = if str_eq event_type "message.delta" then some now else none
first_visible event_type now (some t) = some t

unfoldable pub appended_run : String → ℕ → RunRecord → RunRecord
unfolding first_visible
appended_run event_type now r = record r {
  last_seq = r.last_seq + 1;
  first_visible_at = first_visible event_type now r.first_visible_at;
}

-- The event of a Run that is running.
unfoldable pub appended_with :
    String → String → String × Payload → ℕ → RunRecord → Repo (Option EventRecord)
unfolding reads require_internal_run_consistency record_event
appended_with event_id run_id checked now r =
    reads (require_internal_run_consistency false r)
    >> record_event event_id run_id r checked.0 checked.1 r.last_seq now
    >>= λ event. pure (some event)

unfoldable pub view_appended : String → Option EventRecord → Repo (Option EventEnvelope)
unfolding event_view
view_appended event_id none = pure none
view_appended event_id (some event) = lift (event_view event_id event) >>= λ view. pure (some view)

-- The answer is `none` for a Run that is not running.
unfoldable pub append_active_event :
    String → String → String → Payload → ℕ → Repo (Option EventEnvelope)
unfolding transaction update_run appended_run reads require_available require_run
    validate_runtime_event appended_with view_appended
append_active_event event_id run_id event_type payload now =
    reads require_available
    >> lift (accepted (validate_runtime_event event_type payload))
    >>= λ checked.
        transaction (
          update_run run_id (λ r. is_running r.status) (appended_run checked.0 now) >>= λ updated.
          after_update updated (reads (require_run run_id) >> pure none)
            (appended_with event_id run_id checked now))
        >>= view_appended event_id
