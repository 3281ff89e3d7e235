-- ===== src/Repository/Lives/Histories.antt =====
-- The histories of a repository: its methods in any order, whether they return or raise, each one
-- step, since each works under the lock of the row that it changes; `create_initial_run` also in two
-- steps, since its lookup locks nothing where the thread is not there.
use work_assistant_agent.Prelude.{ℕ, ◌≡◌, refl, Bool, true, String, Option, none, some, arith}
use work_assistant_agent.Prelude.Dict.{lookup}
use work_assistant_agent.Capabilities.Decision.{Principal}
use work_assistant_agent.Usage.Run.{RunErrorCategory}
use work_assistant_agent.Usage.Ledger.Types.{
  ModelAttemptStart, ModelAttemptFinish, ModelAttemptUsage,
}
use work_assistant_agent.Policy.Violation.{RunFailureCode}
use work_assistant_agent.Policy.Plan.{ExecutionPlanEvidence}
use work_assistant_agent.Policy.Evidence.{ExecutionOutcomeEvidence}
use work_assistant_agent.Schemas.Payload.{Payload}
use work_assistant_agent.Repository.Records.{RunRecord, Store, empty_store, clashes}
use work_assistant_agent.Repository.Access.{fail_closed}
use work_assistant_agent.Repository.Events.{start_run, append_active_event}
use work_assistant_agent.Repository.Attempts.{
  start_model_attempt, finish_model_attempt, record_model_attempt_usage,
}
use work_assistant_agent.Repository.Transitions.{CompletionIds, complete_run, fail_run, cancel_run}
use work_assistant_agent.Repository.Creation.{
  RunIds, create_thread, create_run, insert_initial_run, create_initial_run, rename_thread,
}
use work_assistant_agent.Repository.Recovery.{fail_orphaned_runs}
use work_assistant_agent.Repository.Lives.{Effect, quiet, Effects, unchanged, next}
use work_assistant_agent.Repository.Lives.Ends.Completing.{complete_run-Effect}
use work_assistant_agent.Repository.Lives.Ends.Failing.{fail_run-Effect, cancel_run-Effect}
use work_assistant_agent.Repository.Lives.Starts.{start_run-Effect, append_active_event-Effect}
use work_assistant_agent.Repository.Lives.Quiet.{
  start_model_attempt-Effect, finish_model_attempt-Effect, record_model_attempt_usage-Effect,
  create_thread-Effect, rename_thread-Effect,
}
use work_assistant_agent.Repository.Lives.Births.{create_run-Effect}
use work_assistant_agent.Repository.Lives.Births.First.{
  insert_initial_run-Effect, create_initial_run-Effect,
}
use work_assistant_agent.Repository.Lives.Sweep.{join, fail_orphaned_runs-Effects}
use work_assistant_agent.Repository.Lives.Log.{IsTold, IsLogged, Effect-IsLogged, log_of}
use work_assistant_agent.Repository.Lives.Threads.{IsExclusive, Effect-IsExclusive}

module _ (is_control : ℕ → Bool) where
  pub data Step (s : Store) : Store → Type 0 where
    opens_thread :
        (id : String) (principal : Principal) (title : Option String) (now : ℕ)
        → Step s (create_thread id principal title now s).1
    renames :
        (id : String) (principal : Principal) (title : String) (now : ℕ)
        → Step s (rename_thread id principal title now s).1
    creates_first :
        (ids : RunIds) (principal : Principal) (thread_id message key : String)
        (plan : ExecutionPlanEvidence) (now : ℕ)
        → Step s (create_initial_run is_control ids principal thread_id message key plan now s).1
    inserts_first :
        (ids : RunIds) (principal : Principal) (thread_id message key : String)
        (plan : ExecutionPlanEvidence) (now : ℕ)
        → Step s (insert_initial_run is_control ids principal thread_id message key plan now s).1
    creates_run :
        (ids : RunIds) (principal : Principal) (thread_id message key : String)
        (plan : ExecutionPlanEvidence) (now : ℕ)
        → Step s (create_run ids principal thread_id message key plan now s).1
    starts_run : (event_id id : String) (now : ℕ) → Step s (start_run event_id id now s).1
    appends :
        (event_id id type : String) (p : Payload) (now : ℕ)
        → Step s (append_active_event event_id id type p now s).1
    starts_attempt :
        (id : String) (start : ModelAttemptStart) (now : ℕ)
        → Step s (start_model_attempt id start now s).1
    finishes_attempt :
        (id : String) (finish : ModelAttemptFinish) (now : ℕ)
        → Step s (finish_model_attempt id finish now s).1
    records_usage :
        (id : String) (observed : ModelAttemptUsage)
        → Step s (record_model_attempt_usage id observed s).1
    completes_run :
        (ids : CompletionIds) (id content : String) (outcome : ExecutionOutcomeEvidence)
        (category : Option RunErrorCategory) (now : ℕ)
        → Step s (complete_run ids id content outcome category now s).1
    fails_run :
        (event_id id : String) (code : RunFailureCode) (outcome : ExecutionOutcomeEvidence)
        (category : Option RunErrorCategory) (now : ℕ)
        → Step s (fail_run event_id id code outcome category now s).1
    cancels_run :
        (event_id id : String) (principal : Principal) (outcome : ExecutionOutcomeEvidence)
        (category : Option RunErrorCategory) (now : ℕ)
        → Step s (cancel_run event_id id principal outcome category now s).1
    recovers : (uuid : String → String) (now : ℕ) → Step s (fail_orphaned_runs uuid now s).1
    closes : (reason : String) → Step s (fail_closed reason s)

  pub data Reach (s : Store) : Store → Type 0 where
    here : Reach s s
    after : {t u : Store} → Reach s t → Step t u → Reach s u

  fail_closed-Effect : (reason : String) (s : Store) → Effect s (fail_closed reason s)
  unfolding fail_closed
  fail_closed-Effect reason s = closed s.fatal_error
    where
      closed :
          (x : Option String)
          → Effect s (elim x [ none ↦ record s { fatal_error = some reason } | some _ ↦ s ])
      closed none = quiet refl refl
      closed (some _) = quiet refl refl

  one : {s t : Store} → Effect s t → Effects s t
  one e = next unchanged e

  pub Step-Effects : {s t : Store} → Step s t → Effects s t
  Step-Effects {s} (opens_thread id principal title now) =
      one (create_thread-Effect id principal title now s)
  Step-Effects {s} (renames id principal title now) =
      one (rename_thread-Effect id principal title now s)
  Step-Effects {s} (creates_first ids principal thread_id message key plan now) =
      one (create_initial_run-Effect is_control ids principal thread_id message key plan now s)
  Step-Effects {s} (inserts_first ids principal thread_id message key plan now) =
      one (insert_initial_run-Effect is_control ids principal thread_id message key plan now s)
  Step-Effects {s} (creates_run ids principal thread_id message key plan now) =
      one (create_run-Effect ids principal thread_id message key plan now s)
  Step-Effects {s} (starts_run event_id id now) = one (start_run-Effect event_id id now s)
  Step-Effects {s} (appends event_id id type p now) =
      one (append_active_event-Effect event_id id type p now s)
  Step-Effects {s} (starts_attempt id start now) = one (start_model_attempt-Effect id start now s)
  Step-Effects {s} (finishes_attempt id finish now) =
      one (finish_model_attempt-Effect id finish now s)
  Step-Effects {s} (records_usage id observed) =
      one (record_model_attempt_usage-Effect id observed s)
  Step-Effects {s} (completes_run ids id content outcome category now) =
      one (complete_run-Effect ids id content outcome category now s)
  Step-Effects {s} (fails_run event_id id code outcome category now) =
      one (fail_run-Effect event_id id code outcome category now s)
  Step-Effects {s} (cancels_run event_id id principal outcome category now) =
      one (cancel_run-Effect event_id id principal outcome category now s)
  Step-Effects {s} (recovers uuid now) = fail_orphaned_runs-Effects uuid now s
  Step-Effects {s} (closes reason) = one (fail_closed-Effect reason s)

  pub Reach-Effects : {s t : Store} → Reach s t → Effects s t
  Reach-Effects here = unchanged
  Reach-Effects (after r st) = join (Reach-Effects r) (Step-Effects st)

Effects-IsLogged : {s t : Store} → Effects s t → IsLogged s → IsLogged t
Effects-IsLogged unchanged h = h
Effects-IsLogged (next es e) h = Effect-IsLogged e (Effects-IsLogged es h)

Effects-IsExclusive : {s t : Store} → Effects s t → IsExclusive s → IsExclusive t
Effects-IsExclusive unchanged h = h
Effects-IsExclusive (next es e) h = Effect-IsExclusive e (Effects-IsExclusive es h)

empty-IsLogged : IsLogged empty_store
unfolding lookup
empty-IsLogged = record {
  known = λ id r found. absurd (ground (arith, found));
  silent = λ id _. refl;
  stored = tt;
}

empty-IsExclusive : IsExclusive empty_store
unfolding lookup
empty-IsExclusive i j r q found _ _ = absurd (ground (arith, found))

module _ (is_control : ℕ → Bool) where
  pub Reach-IsLogged : {s : Store} → Reach is_control empty_store s → IsLogged s
  Reach-IsLogged r = Effects-IsLogged (Reach-Effects is_control r) empty-IsLogged

  -- Whatever methods are called on an empty repository, in whatever order and whether they return or
  -- raise, the log of a Run is whole: its events are numbered one, two, three and so on in the order
  -- in which they were added, up to the last number of the Run; their types are a story of its life
  -- that ends in its status; the Run has a time of completion exactly if it is not active; while it
  -- is active it has no usage and no outcome; and if it is metered and has ended it has its usage.
  pub Reach-IsTold :
      {s : Store} (id : String) (r : RunRecord)
      → Reach is_control empty_store s
      → lookup id s.runs ≡ some r
      → IsTold id r (log_of id s)
  Reach-IsTold id r h found = (Reach-IsLogged h).known id r found

  -- Whatever is called, two Runs with different ids in one thread never have the same idempotency key,
  -- and never are both active.
  pub Reach-IsExclusive :
      {s : Store} (i j : String) (r q : RunRecord)
      → Reach is_control empty_store s
      → lookup i s.runs ≡ some r
      → lookup j s.runs ≡ some q
      → clashes r q ≡ true
      → i ≡ j
  Reach-IsExclusive i j r q h found_r found_q clash =
      Effects-IsExclusive (Reach-Effects is_control h) empty-IsExclusive i j r q found_r found_q
        clash
