-- ===== src/Repository/Lives/Births/First.antt =====
-- The effects of `create_initial_run`, and of its part after the lookup.
use work_assistant_agent.Prelude.{
  ℕ, ◌≡◌, refl, ap, ◌∙◌, Bool, true, String, Option, none, some, [], ◌∷◌, ◌++◌, ok, err, pure, lift,
  ◌>>=◌, ◌>>◌, continue, arith, continue-eq-ok,
}
use work_assistant_agent.Prelude.Dict.{lookup}
use work_assistant_agent.Capabilities.Decision.{Principal}
use work_assistant_agent.Policy.Plan.{ExecutionPlanEvidence}
use work_assistant_agent.Repository.Records.{
  RunRecord, ThreadRecord, Store, Repo, Checked, reads, transaction, add_run, add_thread,
}
use work_assistant_agent.Repository.Views.{RunView, run_view, thread_summary}
use work_assistant_agent.Repository.Transitions.{view_of}
use work_assistant_agent.Repository.Creation.{
  RunIds, InitialRun, new_run, first_thread, validate_execution_plan, replayed_initial_run,
  insert_thread_and_run, view_initial, reread_initial_run, insert_initial_run, create_initial_run,
}
use work_assistant_agent.Repository.Lives.{Effect, creates}
use work_assistant_agent.Repository.Lives.Queries.{same_tables}
use work_assistant_agent.Repository.Lives.Methods.{
  open-Effect, checked-Effect, view-Effect, transaction-Effect,
}
use work_assistant_agent.Repository.Lives.Ends.Completing.{add_message-ended}
use work_assistant_agent.Repository.Lives.Births.{
  new_run-IsSettled, add_run-ended, on_integrity-Effect,
}

add_thread-ended :
    (id : String) (t : ThreadRecord) (s u : Store) (x : Unit {0})
    → add_thread id t s ≡ (ok x, u)
    → (u.runs ≡ s.runs) × (u.events ≡ s.events)
unfolding add_thread
add_thread-ended id t s u x h = ground (arith, h)

insert_thread_and_run-Effect :
    (ids : RunIds) (thread_id message key : String) (principal : Principal)
    (plan : ExecutionPlanEvidence) (now : ℕ) (t : ThreadRecord) (s : Store) (a : Unit {0})
    (u : Store)
    → insert_thread_and_run ids thread_id message t (new_run principal thread_id key plan now) s
      ≡ (ok a, u)
    → Effect s u
unfolding insert_thread_and_run
insert_thread_and_run-Effect ids thread_id message key principal plan now t s a u h =
    let r = new_run principal thread_id key plan now in
    let (w, q, opened, rest) = continue-eq-ok (add_thread thread_id t s) _ h in
    let (runs_q, events_q) = add_thread-ended thread_id t s q w opened in
    let (x, v, added, asked) = continue-eq-ok (add_run ids.run r q) _ rest in
    let (new_key, no_clash, v_is) = add_run-ended ids.run r q v x added in
    let (runs_u, events_u) = add_message-ended ids.message _ v u a asked in
    creates ids.run r (rw runs_q at new_key) (rw runs_q at no_clash) refl refl
      (new_run-IsSettled principal thread_id key plan now)
      (runs_u ∙ ap (λ (p : Store). p.runs) v_is ∙ ap (λ d. d ++ (ids.run, r) ∷ []) runs_q)
      (events_u ∙ ap (λ (p : Store). p.events) v_is ∙ events_q)

view_initial-same :
    (thread_id : String) (t : ThreadRecord) (run_id : String) (r : RunRecord) (u : Store)
    → (view_initial thread_id t run_id r u).1 ≡ u
unfolding view_initial view_of
view_initial-same thread_id t run_id r u = viewed (run_view run_id r)
  where
    viewed :
        (x : Checked RunView)
        → (continue {B = InitialRun} x
            (λ view.
              pure (record { thread = thread_summary thread_id t; run = view; was_created = true }))
            u).1
          ≡ u
    viewed (ok v) = refl
    viewed (err e) = refl

module _ (is_control : ℕ → Bool) where
  -- What the part of `create_initial_run` after its lookup does, in whatever state it comes.
  pub insert_initial_run-Effect :
      (ids : RunIds) (principal : Principal) (thread_id message key : String)
      (plan : ExecutionPlanEvidence) (now : ℕ) (s : Store)
      → Effect s (insert_initial_run is_control ids principal thread_id message key plan now s).1
  unfolding insert_initial_run
  insert_initial_run-Effect ids principal thread_id message key plan now s =
      on_integrity-Effect (transaction inserting >> view_initial thread_id t ids.run r) handler s
        (λ u. unfold reads in refl)
        (view-Effect (transaction inserting) (λ _. view_initial thread_id t ids.run r) s
          (λ _ u. view_initial-same thread_id t ids.run r u)
          (transaction-Effect inserting s
            (insert_thread_and_run-Effect ids thread_id message key principal plan now t s)))
    where
      t : ThreadRecord
      t = first_thread is_control principal message now

      r : RunRecord
      r = new_run principal thread_id key plan now

      inserting : Repo (Unit {0})
      inserting = insert_thread_and_run ids thread_id message t r

      handler : Repo InitialRun
      handler = reads (reread_initial_run principal thread_id message key)

  -- What `create_initial_run` does to the tables.
  pub create_initial_run-Effect :
      (ids : RunIds) (principal : Principal) (thread_id message key : String)
      (plan : ExecutionPlanEvidence) (now : ℕ) (s : Store)
      → Effect s (create_initial_run is_control ids principal thread_id message key plan now s).1
  unfolding create_initial_run
  create_initial_run-Effect ids principal thread_id message key plan now s =
      open-Effect (lift (validate_execution_plan plan) >>= creating) s (
        checked-Effect (validate_execution_plan plan) creating s
          (λ p _. looked p (lookup thread_id s.threads)))
    where
      after : ExecutionPlanEvidence → Option ThreadRecord → Repo InitialRun
      after p x u = elim x [
        | some existing ↦ reads (replayed_initial_run principal thread_id message key existing) u
        | none ↦ insert_initial_run is_control ids principal thread_id message key p now u
      ]

      creating : ExecutionPlanEvidence → Repo InitialRun
      creating p u = after p (lookup thread_id u.threads) u

      looked : (p : ExecutionPlanEvidence) (x : Option ThreadRecord) → Effect s (after p x s).1
      looked p (some existing) = unfold reads in same_tables
      looked p none = insert_initial_run-Effect ids principal thread_id message key p now s
