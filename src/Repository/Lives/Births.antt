-- ===== src/Repository/Lives/Births.antt =====
-- The effect of `create_run`.
pub mod First
use work_assistant_agent.Prelude.{
  ℕ, ◌≡◌, refl, sym, ap, ◌∙◌, ◌⊎◌, inl, inr, Bool, true, false, not, String, Option, none, some,
  List, [], ◌∷◌, ◌++◌, Result, ok, err, Exec, pure, raise, lift, modify, ◌>>=◌, ◌>>◌, continue,
  arith, continue-eq-ok, err_ne_ok, any, Bool-cases, ◌||◌,
}
use work_assistant_agent.Prelude.Dict.{Dict, lookup, has_key, values}
use work_assistant_agent.Capabilities.Decision.{Principal}
use work_assistant_agent.Policy.Plan.{ExecutionPlanEvidence}
use work_assistant_agent.Repository.Records.{
  RunRecord, ThreadRecord, MessageRecord, Store, Repo, Checked, RepositoryError, integrity_error,
  reads, transaction, clashes, add_run, add_message, add_thread, put_thread,
}
use work_assistant_agent.Repository.Access.{require_available}
use work_assistant_agent.Repository.Views.{RunView, ThreadSummary, thread_summary, run_view}
use work_assistant_agent.Repository.Transitions.{view_of}
use work_assistant_agent.Repository.Creation.{
  RunIds, InitialRun, new_run, user_message, first_thread, validate_execution_plan, create_thread,
  rename_thread, require_own_thread, existing_run, insert_run, found_or, find_or_insert_run,
  reread_run, view_created, create_run, recovered, on_integrity, replayed_initial_run,
  insert_initial_run, create_initial_run,
}
use work_assistant_agent.Repository.Lives.{Effect, quiet, creates, IsSettled}
use work_assistant_agent.Repository.Lives.Methods.{
  open-Effect, checked-Effect, view-Effect, transaction-Effect, plain_method-Effect,
}
use work_assistant_agent.Repository.Lives.Queries.{reads-eq-ok, same_tables}
use work_assistant_agent.Repository.Lives.Ends.Completing.{add_message-ended}

pub new_run-IsSettled :
    (principal : Principal) (thread_id key : String) (plan : ExecutionPlanEvidence) (now : ℕ)
    → IsSettled (new_run principal thread_id key plan now)
new_run-IsSettled principal thread_id key plan now = record {
  completion = refl;
  no_usage = λ _. refl;
  no_outcome = λ _. refl;
  has_usage = λ inactive _. absurd (ground (arith, inactive));
}

pub add_run-ended :
    (id : String) (r : RunRecord) (s u : Store) (x : Unit {0})
    → add_run id r s ≡ (ok x, u)
    → (has_key id s.runs ≡ false)
      × (any (clashes r) (values s.runs) ≡ false)
      × (u ≡ record s { runs = s.runs ++ (id, r) ∷ [] })
unfolding add_run
add_run-ended id r s u x h = (ground (arith, h), ground (arith, h), ground (arith, h))

insert_run-Effect :
    (ids : RunIds) (thread_id message key : String) (principal : Principal)
    (plan : ExecutionPlanEvidence) (now : ℕ) (t : ThreadRecord) (a : String × RunRecord × Bool)
    (s u : Store)
    → insert_run ids thread_id message (new_run principal thread_id key plan now) t s ≡ (ok a, u)
    → Effect s u
unfolding insert_run put_thread
insert_run-Effect ids thread_id message key principal plan now t a s u h =
    let r = new_run principal thread_id key plan now in
    let (x, v, added, rest) = continue-eq-ok (add_run ids.run r s) _ h in
    let (new_key, no_clash, v_is) = add_run-ended ids.run r s v x added in
    let (y, w, asked, rest) =
      continue-eq-ok (add_message ids.message (user_message thread_id ids.run message now) v) _
        rest in
    let (runs_w, events_w) = add_message-ended ids.message _ v w y asked in
    let u_is : u ≡ put_thread thread_id (record t { updated_at = now }) w =
      sym (ap (λ x. x.1) rest) in
    rw u_is (
      creates ids.run r new_key no_clash refl refl
        (new_run-IsSettled principal thread_id key plan now)
        (runs_w ∙ ap (λ (q : Store). q.runs) v_is) (events_w ∙ ap (λ (q : Store). q.events) v_is))

module _ {A : Type 0} where
  recovered-same :
      (x : Checked A) (handler : Repo A) (t : Store)
      → (handler t).1 ≡ t
      → (recovered x handler t).1 ≡ t
  recovered-same x handler t h = ground (arith, h)

  pub on_integrity-Effect :
      (m handler : Repo A) (s : Store)
      → ((u : Store) → (handler u).1 ≡ u)
      → Effect s (m s).1
      → Effect s (on_integrity m handler s).1
  unfolding on_integrity
  on_integrity-Effect m handler s h e = rw (recovered-same (m s).0 handler (m s).1 (h (m s).1)) e

found_or-same :
    (x : Option (String × RunRecord)) (e : RepositoryError) (u : Store)
    → (found_or x (raise e) u).1 ≡ u
found_or-same none e u = refl
found_or-same (some _) e u = refl

reread_run-same :
    (principal : Principal) (thread_id key : String) (u : Store)
    → (reread_run principal thread_id key u).1 ≡ u
unfolding reread_run reads
reread_run-same principal thread_id key u = of_thread (require_own_thread principal thread_id u)
  where
    of_run :
        (x : Checked (Option (String × RunRecord)))
        → (continue x (λ existing. found_or existing (raise integrity_error)) u).1 ≡ u
    of_run (ok a) = found_or-same a integrity_error u
    of_run (err e) = refl

    of_thread :
        (x : Checked ThreadRecord)
        → (continue x
            (λ _. reads (existing_run principal thread_id key) >>= λ existing.
              found_or existing (raise integrity_error))
            u).1
          ≡ u
    of_thread (ok t) = of_run (existing_run principal thread_id key u)
    of_thread (err e) = refl

view_created-same : (a : String × RunRecord × Bool) (u : Store) → (view_created a u).1 ≡ u
unfolding view_created view_of
view_created-same (id, r, is_new) u = viewed (run_view id r)
  where
    viewed :
        (x : Checked RunView)
        → (continue {B = RunView × Bool} x (λ view. pure (view, is_new)) u).1 ≡ u
    viewed (ok v) = refl
    viewed (err e) = refl

find_or_insert_run-Effect :
    (ids : RunIds) (principal : Principal) (thread_id message key : String)
    (plan : ExecutionPlanEvidence) (now : ℕ) (s : Store) (a : String × RunRecord × Bool) (u : Store)
    → find_or_insert_run ids principal thread_id message key plan now s ≡ (ok a, u)
    → Effect s u
unfolding find_or_insert_run
find_or_insert_run-Effect ids principal thread_id message key plan now s a u h =
    let (t, _, rest) = reads-eq-ok (require_own_thread principal thread_id) _ s h in
    let (existing, _, rest) = reads-eq-ok (existing_run principal thread_id key) _ s rest in
    ended t existing rest
  where
    ended :
        (t : ThreadRecord) (x : Option (String × RunRecord))
        → found_or x
            (insert_run ids thread_id message (new_run principal thread_id key plan now) t)
            s
          ≡ (ok a, u)
        → Effect s u
    ended t none h = insert_run-Effect ids thread_id message key principal plan now t a s u h
    ended t (some _) h = let u_is : u ≡ s = sym (ap (λ x. x.1) h) in rw u_is same_tables

-- What `create_run` does to the tables.
pub create_run-Effect :
    (ids : RunIds) (principal : Principal) (thread_id message key : String)
    (plan : ExecutionPlanEvidence) (now : ℕ) (s : Store)
    → Effect s (create_run ids principal thread_id message key plan now s).1
unfolding create_run
create_run-Effect ids principal thread_id message key plan now s =
    open-Effect (lift (validate_execution_plan plan) >>= creating) s (
      checked-Effect (validate_execution_plan plan) creating s (λ p _.
        view-Effect (winning p) view_created s view_created-same (
          on_integrity-Effect (transaction (inserting p)) (reread_run principal thread_id key) s
            (reread_run-same principal thread_id key)
            (transaction-Effect (inserting p) s
              (find_or_insert_run-Effect ids principal thread_id message key p now s)))))
  where
    inserting : ExecutionPlanEvidence → Repo (String × RunRecord × Bool)
    inserting p = find_or_insert_run ids principal thread_id message key p now

    winning : ExecutionPlanEvidence → Repo (String × RunRecord × Bool)
    winning p = on_integrity (transaction (inserting p)) (reread_run principal thread_id key)

    creating : ExecutionPlanEvidence → Repo (RunView × Bool)
    creating p = winning p >>= view_created
