-- ===== src/Repository/Lives/Ends/Failing.antt =====
-- The effects of `fail_run` and `cancel_run`.
use work_assistant_agent.Prelude.{
  ℕ, ◌≡◌, refl, false, String, Option, none, some, [], ◌∷◌, ok, ◌>>=◌, arith, continue-eq-ok,
}
use work_assistant_agent.Prelude.Dict.{Dict, insert}
use work_assistant_agent.Capabilities.Decision.{Principal}
use work_assistant_agent.Usage.Run.{RunErrorCategory}
use work_assistant_agent.Usage.Ledger.Types.{ModelAttemptStatus}
use work_assistant_agent.Policy.Violation.{RunFailureCode}
use work_assistant_agent.Policy.Evidence.{OutcomeStatus, ExecutionOutcomeEvidence}
use work_assistant_agent.Repository.Records.{
  RunStatus, is_active, RunRecord, ThreadRecord, Store, Repo, reads, put_thread,
}
use work_assistant_agent.Repository.Access.{require_internal_run_consistency}
use work_assistant_agent.Repository.Views.{view_usage}
use work_assistant_agent.Repository.Events.{record_event}
use work_assistant_agent.Repository.Transitions.{
  write_terminal_usage, claim, ended_run, failed_with, fail_run, cancelled_with, cancel_run,
  require_cancel, terminal_data, view_of, validated_terminal_outcome,
}
use work_assistant_agent.Repository.Lives.{Effect, fails, cancels}
use work_assistant_agent.Repository.Lives.Queries.{reads-eq-ok, lift-eq-ok, record_event-ended}
use work_assistant_agent.Repository.Lives.Methods.{method-Effect}
use work_assistant_agent.Repository.Lives.Ends.{
  Ended, claim-Effect, Metered-Ended, write_terminal_usage-ended,
}

failed_with-Ended :
    (event_id id : String) (code : RunFailureCode) (category : Option RunErrorCategory) (now : ℕ)
    (claimed r : RunRecord) (base : Dict RunRecord) (s u : Store)
    → s.runs ≡ insert id claimed base
    → failed_with event_id id code category now claimed s ≡ (ok r, u)
    → Ended id ("run.failed" ∷ []) claimed r base s u
unfolding failed_with put_thread
failed_with-Ended event_id id code category now claimed r base s u s_is h =
    let (q, v, metered, rest) =
      continue-eq-ok (write_terminal_usage now ModelAttemptStatus.failed category id claimed s) _
        h in
    let (usage, _, rest) = lift-eq-ok (view_usage q) _ v rest in
    let (t, _, rest) = reads-eq-ok (require_internal_run_consistency false q) _ v rest in
    let (e, x, recorded, rest) =
      continue-eq-ok
        (record_event event_id id q "run.failed" (terminal_data "failed" (some code) usage)
          q.last_seq now v)
        _ rest in
    let q_is : r ≡ q = ground (arith, rest) in
    let u_is : u ≡ put_thread q.thread_id (record t { updated_at = now }) x =
      ground (arith, rest) in
    rw (q_is, u_is)
      (Metered-Ended event_id id "run.failed" claimed q e base s v x _
        (write_terminal_usage-ended now _ category id claimed q s v metered) s_is
        (record_event-ended event_id id "run.failed" q _ q.last_seq now e v x refl recorded) refl
        refl)

-- What `fail_run` does to the tables.
pub fail_run-Effect :
    (event_id id : String) (code : RunFailureCode) (outcome : ExecutionOutcomeEvidence)
    (category : Option RunErrorCategory) (now : ℕ) (s : Store)
    → Effect s (fail_run event_id id code outcome category now s).1
unfolding fail_run view_of
fail_run-Effect event_id id code outcome category now s =
    method-Effect (validated_terminal_outcome outcome OutcomeStatus.failed (some code))
      (λ o.
        claim id (λ r. is_active r.status) (ended_run RunStatus.failed now 1 (some o))
          (failed_with event_id id code category now))
      (view_of id) s (λ a u. refl)
      (λ o a u _ h.
        claim-Effect id ("run.failed" ∷ []) RunStatus.failed now (some o) _
          (failed_with event_id id code category now) s refl (λ r active. fails active)
          (λ claimed a v u. failed_with-Ended event_id id code category now claimed a s.runs v u) a
          u h)

cancelled_with-Ended :
    (event_id id : String) (category : Option RunErrorCategory) (now : ℕ) (t : ThreadRecord)
    (claimed r : RunRecord) (base : Dict RunRecord) (s u : Store)
    → s.runs ≡ insert id claimed base
    → cancelled_with event_id id category now t claimed s ≡ (ok r, u)
    → Ended id ("run.cancelled" ∷ []) claimed r base s u
unfolding cancelled_with put_thread
cancelled_with-Ended event_id id category now t claimed r base s u s_is h =
    let (q, v, metered, rest) =
      continue-eq-ok (write_terminal_usage now ModelAttemptStatus.cancelled category id claimed s) _
        h in
    let (usage, _, rest) = lift-eq-ok (view_usage q) _ v rest in
    let (e, x, recorded, rest) =
      continue-eq-ok
        (record_event event_id id q "run.cancelled" (terminal_data "cancelled" none usage)
          q.last_seq now v)
        _ rest in
    let q_is : r ≡ q = ground (arith, rest) in
    let u_is : u ≡ put_thread q.thread_id (record t { updated_at = now }) x =
      ground (arith, rest) in
    rw (q_is, u_is)
      (Metered-Ended event_id id "run.cancelled" claimed q e base s v x _
        (write_terminal_usage-ended now _ category id claimed q s v metered) s_is
        (record_event-ended event_id id "run.cancelled" q _ q.last_seq now e v x refl recorded) refl
        refl)

-- What `cancel_run` does to the tables.
pub cancel_run-Effect :
    (event_id id : String) (principal : Principal) (outcome : ExecutionOutcomeEvidence)
    (category : Option RunErrorCategory) (now : ℕ) (s : Store)
    → Effect s (cancel_run event_id id principal outcome category now s).1
unfolding cancel_run view_of
cancel_run-Effect event_id id principal outcome category now s =
    method-Effect (validated_terminal_outcome outcome OutcomeStatus.cancelled none)
      (λ o. reads (require_cancel principal id) >>= ending o) (view_of id) s (λ a u. refl)
      (λ o a u _ h.
        let (t, _, h) = reads-eq-ok (require_cancel principal id) (ending o) s h in
        claim-Effect id ("run.cancelled" ∷ []) RunStatus.cancelled now (some o) _
          (cancelled_with event_id id category now t) s refl (λ r active. cancels active)
          (λ claimed a v u. cancelled_with-Ended event_id id category now t claimed a s.runs v u) a
          u h)
  where
    ending : ExecutionOutcomeEvidence → ThreadRecord → Repo RunRecord
    ending o t =
        claim id (λ r. is_active r.status) (ended_run RunStatus.cancelled now 1 (some o))
          (cancelled_with event_id id category now t)
