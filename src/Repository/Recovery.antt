-- ===== src/Repository/Recovery.antt =====
-- `fail_orphaned_runs` of backend/src/work_assistant/repository.py: at the start of the process every
-- Run that a previous one left active is failed, in one transaction.
use work_assistant_agent.Prelude.{
  ℕ, true, String, Option, none, some, List, [], ◌∷◌, ◌++◌, filter, ok, err, pure, lift, modify,
  ◌>>=◌, ◌>>◌, add, leb, str_eq,
}
use work_assistant_agent.Prelude.Dict.{values}
use work_assistant_agent.Prelude.Sorting.{sort_by}
use work_assistant_agent.Capabilities.Values.{get_text}
use work_assistant_agent.Usage.Run.{RunErrorCategory}
use work_assistant_agent.Usage.Ledger.Types.{ModelAttemptStatus}
use work_assistant_agent.Policy.Violation.{service_restarted}
use work_assistant_agent.Policy.Evidence.{ExecutionOutcomeEvidence, orphaned_run_outcome}
use work_assistant_agent.Schemas.Payload.{
  Payload, texts, validate_product_event, invalid_product_event_payload,
}
use work_assistant_agent.Repository.Records.{
  RunStatus, is_active, Store, RunRecord, EventRecord, policy_kernel_configuration,
  evidence_invalid, product_event_invalid, Repo, Checked, transaction, reads, update_run,
  put_thread,
}
use work_assistant_agent.Repository.Access.{
  require_available, ◌|>=◌, ◌|>◌, require_internal_run_consistency,
}
use work_assistant_agent.Repository.Views.{RunView, run_view, view_usage, accepted, in_order}
use work_assistant_agent.Repository.Events.{after_update, record_event}
use work_assistant_agent.Repository.Transitions.{
  validate_execution_outcome, write_terminal_usage, ended_run, terminal_data,
}
use work_assistant_agent.Repository.Creation.{validate_execution_plan}

-- The events of a Run, `ORDER BY seq`.
unfoldable pub events_of : String → Store → List EventRecord
events_of run_id s =
    sort_by (λ (a b : EventRecord). leb a.seq b.seq)
      (filter (λ (e : EventRecord). str_eq e.run_id run_id) (values s.events))

-- `source_data["source_id"]`, of a validated payload
source_id_of : Payload → Checked String
unfolding get_text
source_id_of (texts d) = elim (get_text "source_id" d) [
  | some id ↦ ok id
  | none ↦ err (product_event_invalid invalid_product_event_payload)
]
source_id_of _ = err (product_event_invalid invalid_product_event_payload)

-- The sources of the events, each once and in their order.
unfoldable pub collect_sources : List EventRecord → List String → Checked (List String)
unfolding source_id_of
collect_sources [] ids = ok ids
collect_sources (e ∷ events) ids = accepted (validate_product_event e.type e.payload) |>= λ payload.
    source_id_of payload |>= λ id. collect_sources events (add id ids)

checked_orphan : List String → Checked ExecutionOutcomeEvidence
unfolding validate_execution_outcome orphaned_run_outcome
checked_orphan ids = elim (orphaned_run_outcome ids) [
  | ok o ↦ validate_execution_outcome o
  | err e ↦ err (evidence_invalid e)
]

-- The outcome of a Run that is recovered; a Run of an older release has none.
unfoldable pub recovered_outcome :
    String → RunRecord → Store → Checked (Option ExecutionOutcomeEvidence)
unfolding validate_execution_outcome validate_execution_plan events_of collect_sources
    checked_orphan
recovered_outcome run_id r s = elim r.execution_outcome [
  | some o ↦
      validate_execution_outcome o
      |> err (policy_kernel_configuration "active_run_execution_outcome_present")
  | none ↦ elim r.execution_plan [
    | none ↦ ok none
    | some plan ↦
        validate_execution_plan plan
        |> collect_sources
            (filter (λ (e : EventRecord). str_eq e.type "source.added") (events_of run_id s)) []
        |>= λ ids. checked_orphan ids |>= λ outcome. ok (some outcome)
  ]
]

unfoldable pub recovered_with : String → String → ℕ → RunRecord → Repo RunRecord
unfolding write_terminal_usage reads view_usage require_internal_run_consistency record_event
    put_thread
recovered_with event_id run_id now claimed =
    write_terminal_usage now ModelAttemptStatus.interrupted (some RunErrorCategory.service) run_id
      claimed
    >>= λ r. lift (view_usage r) >>= λ usage.
        reads (require_internal_run_consistency true r) >>= λ t.
        record_event event_id run_id r "run.failed"
          (terminal_data "failed" (some service_restarted) usage) r.last_seq now
        >> modify (put_thread r.thread_id (record t { updated_at = now }))
        >> pure r

-- A claimed candidate that is ended, as the list of what was recovered.
unfoldable pub recovered_one :
    (String → String) → ℕ → String → RunRecord → Repo (List (String × RunRecord))
unfolding recovered_with
recovered_one uuid now run_id claimed =
    recovered_with (uuid run_id) run_id now claimed >>= λ r. pure ((run_id, r) ∷ [])

-- The body of the loop, of one candidate; `uuid` names the event of a Run.
unfoldable pub recover_run :
    (String → String) → ℕ → String → RunRecord → Repo (List (String × RunRecord))
unfolding reads recovered_outcome update_run ended_run recovered_one
recover_run uuid now run_id candidate = reads (recovered_outcome run_id candidate) >>= λ outcome.
    update_run run_id (λ r. is_active r.status) (ended_run RunStatus.failed now 1 outcome)
    >>= λ updated. after_update updated (pure []) (recovered_one uuid now run_id)

unfoldable pub recover_each :
    (String → String) → ℕ → List (String × RunRecord) → Repo (List (String × RunRecord))
unfolding recover_run
recover_each uuid now [] = pure []
recover_each uuid now ((id, candidate) ∷ rest) = recover_run uuid now id candidate >>= λ first.
    recover_each uuid now rest >>= λ others. pure (first ++ others)

-- `RunRecord.status.in_(ACTIVE_STATUSES)`, `ORDER BY created_at, id`
unfoldable pub candidates : Store → List (String × RunRecord)
candidates s =
    sort_by (λ (a b : String × RunRecord). in_order a.1.created_at a.0 b.1.created_at b.0)
      (filter (λ (row : String × RunRecord). is_active row.1.status) s.runs)

unfoldable pub view_each : List (String × RunRecord) → Checked (List RunView)
unfolding run_view
view_each [] = ok []
view_each ((id, r) ∷ rest) = run_view id r |>= λ v. view_each rest |>= λ vs. ok (v ∷ vs)

-- The transaction of the sweep.
unfoldable pub recover_all : (String → String) → ℕ → Repo (List (String × RunRecord))
unfolding candidates recover_each
recover_all uuid now s = recover_each uuid now (candidates s) s

unfoldable pub fail_orphaned_runs : (String → String) → ℕ → Repo (List RunView)
unfolding transaction reads require_available recover_all view_each
fail_orphaned_runs uuid now =
    reads require_available >> transaction (recover_all uuid now) >>= λ failed.
    lift (view_each failed)
