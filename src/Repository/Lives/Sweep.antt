-- ===== src/Repository/Lives/Sweep.antt =====
-- The effects of `fail_orphaned_runs`: one for each Run that it ends.
use work_assistant_agent.Prelude.{
  ℕ, ◌≡◌, refl, sym, ap, true, String, Option, some, List, [], ◌∷◌, ok, err, pure, lift, ◌>>=◌,
  continue, arith, continue-eq-ok,
}
use work_assistant_agent.Prelude.Dict.{Dict, insert}
use work_assistant_agent.Usage.Run.{RunErrorCategory}
use work_assistant_agent.Usage.Ledger.Types.{ModelAttemptStatus}
use work_assistant_agent.Policy.Violation.{service_restarted}
use work_assistant_agent.Policy.Evidence.{ExecutionOutcomeEvidence}
use work_assistant_agent.Repository.Records.{
  RunStatus, is_active, RunRecord, Store, Checked, reads, put_run, put_thread, transaction,
}
use work_assistant_agent.Repository.Access.{require_available, require_internal_run_consistency}
use work_assistant_agent.Repository.Views.{view_usage}
use work_assistant_agent.Repository.Events.{record_event}
use work_assistant_agent.Repository.Transitions.{write_terminal_usage, ended_run, terminal_data}
use work_assistant_agent.Repository.Recovery.{
  recovered_outcome, recovered_with, recovered_one, recover_run, recover_each, recover_all,
  candidates, fail_orphaned_runs, view_each,
}
use work_assistant_agent.Repository.Lives.{Effect, Effects, unchanged, next, fails}
use work_assistant_agent.Repository.Lives.Queries.{
  reads-eq-ok, lift-eq-ok, Updated, missed, hit, update_run-ended, record_event-ended, same_tables,
}
use work_assistant_agent.Repository.Lives.Ends.{
  Ended, Ended-Effect, Metered-Ended, write_terminal_usage-ended,
}

pub join : {s t u : Store} → Effects s t → Effects t u → Effects s u
join a unchanged = a
join a (next b e) = next (join a b) e

recovered_with-Ended :
    (event_id id : String) (now : ℕ) (claimed r : RunRecord) (base : Dict RunRecord) (s u : Store)
    → s.runs ≡ insert id claimed base
    → recovered_with event_id id now claimed s ≡ (ok r, u)
    → Ended id ("run.failed" ∷ []) claimed r base s u
unfolding recovered_with put_thread
recovered_with-Ended event_id id now claimed r base s u s_is h =
    let (q, v, metered, rest) =
      continue-eq-ok
        (write_terminal_usage now ModelAttemptStatus.interrupted (some RunErrorCategory.service) id
          claimed s)
        _ h in
    let (usage, _, rest) = lift-eq-ok (view_usage q) _ v rest in
    let (t, _, rest) = reads-eq-ok (require_internal_run_consistency true q) _ v rest in
    let (e, x, recorded, rest) =
      continue-eq-ok
        (record_event event_id id q "run.failed"
          (terminal_data "failed" (some service_restarted) usage) q.last_seq now v)
        _ rest in
    let q_is : r ≡ q = ground (arith, rest) in
    let u_is : u ≡ put_thread q.thread_id (record t { updated_at = now }) x =
      ground (arith, rest) in
    rw (q_is, u_is)
      (Metered-Ended event_id id "run.failed" claimed q e base s v x _
        (write_terminal_usage-ended now _ _ id claimed q s v metered) s_is
        (record_event-ended event_id id "run.failed" q _ q.last_seq now e v x refl recorded) refl
        refl)

pub recovered_one-Ended :
    (uuid : String → String) (now : ℕ) (id : String) (claimed : RunRecord)
    (a : List (String × RunRecord)) (base : Dict RunRecord) (s u : Store)
    → s.runs ≡ insert id claimed base
    → recovered_one uuid now id claimed s ≡ (ok a, u)
    → (r : RunRecord) × Ended id ("run.failed" ∷ []) claimed r base s u
unfolding recovered_one
recovered_one-Ended uuid now id claimed a base s u s_is h =
    let (r, v, ended, rest) = continue-eq-ok (recovered_with (uuid id) id now claimed s) _ h in
    let u_is : u ≡ v = sym (ap (λ x. x.1) rest) in
    (r, rw u_is (recovered_with-Ended (uuid id) id now claimed r base s v s_is ended))

recover_run-Effect :
    (uuid : String → String) (now : ℕ) (id : String) (candidate : RunRecord)
    (a : List (String × RunRecord)) (s u : Store)
    → recover_run uuid now id candidate s ≡ (ok a, u)
    → Effect s u
unfolding recover_run put_run
recover_run-Effect uuid now id candidate a s u h =
    let (outcome, _, rest) = reads-eq-ok (recovered_outcome id candidate) _ s h in
    ended outcome (
      update_run-ended id (λ r. is_active r.status) (ended_run RunStatus.failed now 1 outcome)
        (pure []) (recovered_one uuid now id) s a u (λ b v v_is. sym (ap (λ x. x.1) v_is)) rest)
  where
    ended :
        (outcome : Option ExecutionOutcomeEvidence)
        → Updated id
            (λ r. is_active r.status)
            (ended_run RunStatus.failed now 1 outcome)
            (recovered_one uuid now id)
            s
            a
            u
        → Effect s u
    ended outcome (missed u_is _) = rw u_is same_tables
    ended outcome (hit r found active h) =
        let (q, e) = recovered_one-Ended uuid now id _ a s.runs _ u refl h in
        Ended-Effect id ("run.failed" ∷ []) RunStatus.failed now outcome r q s u refl found
          (fails active) e

recover_each-Effects :
    (uuid : String → String) (now : ℕ) (rows a : List (String × RunRecord)) (s u : Store)
    → recover_each uuid now rows s ≡ (ok a, u)
    → Effects s u
unfolding recover_each
recover_each-Effects uuid now [] a s u h =
    let u_is : u ≡ s = sym (ap (λ x. x.1) h) in rw u_is unchanged
recover_each-Effects uuid now ((id, candidate) ∷ rows) a s u h =
    let (first, v, one, rest) = continue-eq-ok (recover_run uuid now id candidate s) _ h in
    let (others, w, more, rest) = continue-eq-ok (recover_each uuid now rows v) _ rest in
    let u_is : u ≡ w = sym (ap (λ x. x.1) rest) in
    rw u_is (
      join (next unchanged (recover_run-Effect uuid now id candidate first s v one))
        (recover_each-Effects uuid now rows others v w more))

-- What `fail_orphaned_runs` does to the tables.
pub fail_orphaned_runs-Effects :
    (uuid : String → String) (now : ℕ) (s : Store) → Effects s (fail_orphaned_runs uuid now s).1
unfolding fail_orphaned_runs transaction reads recover_all
fail_orphaned_runs-Effects uuid now s = opened (require_available s)
  where
    ended :
        (x : Checked (List (String × RunRecord)) × Store)
        → ((a : List (String × RunRecord)) (u : Store) → x ≡ (ok a, u) → Effects s u)
        → Effects s
            (continue x.0
              (λ failed. lift (view_each failed))
              (elim x.0 [ ok _ ↦ x.1 | err _ ↦ s ])).1
    ended (ok a, u) k = k a u refl
    ended (err e, u) k = unchanged

    opened :
        (x : Checked (Unit {0}))
        → Effects s
            (continue x
              (λ _. transaction (recover_all uuid now) >>= λ failed. lift (view_each failed))
              s).1
    opened (ok _) =
        ended (recover_each uuid now (candidates s) s)
          (λ a u. recover_each-Effects uuid now (candidates s) a s u)
    opened (err e) = unchanged
