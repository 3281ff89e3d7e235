-- ===== src/Repository/Creation/Replays.antt =====
-- A repeated request: `create_run` after the same call created a Run.
use work_assistant_agent.Prelude.{
  ℕ, ◌≡◌, refl, sym, ap, inl, inr, Bool, true, false, String, some, ok, err, ◌⊎◌, arith,
  continue-eq-ok,
}
use work_assistant_agent.Capabilities.Decision.{Principal}
use work_assistant_agent.Policy.Plan.{ExecutionPlanEvidence}
use work_assistant_agent.Repository.Records.{
  RunRecord, ThreadRecord, Store, Repo, reads, transaction,
}
use work_assistant_agent.Repository.Access.{require_available}
use work_assistant_agent.Repository.Views.{RunView, run_view}
use work_assistant_agent.Repository.Transitions.{view_of}
use work_assistant_agent.Repository.Creation.{
  RunIds, new_run, validate_execution_plan, require_own_thread, existing_run, find_or_insert_run,
  reread_run, view_created, create_run, on_integrity, recovered,
}
use work_assistant_agent.Repository.Lives.Queries.{reads-eq-ok, lift-eq-ok, transaction-eq-ok}
use work_assistant_agent.Repository.Creation.Winners.{
  Winning, OwnThread-stays, existing_run-Created, on_integrity-ended, reread_run-old,
  find_or_insert_run-Winning,
}

view_created-ended :
    (a : String × RunRecord × Bool) (v : RunView) (s u : Store)
    → view_created a s ≡ (ok (v, true), u)
    → (run_view a.0 a.1 ≡ ok v) × (a.2 ≡ true) × (u ≡ s)
unfolding view_created view_of
view_created-ended (id, r, is_new) v s u h =
    let (w, viewed, rest) = lift-eq-ok (run_view id r) _ s h in
    (ground (arith, viewed, rest), ground (arith, rest), sym (ap (λ x. x.1) rest))

view_created-old :
    (id : String) (r : RunRecord) (v : RunView) (s : Store)
    → run_view id r ≡ ok v
    → view_created (id, r, false) s ≡ (ok (v, false), s)
unfolding view_created view_of
view_created-old id r v s viewed = rw viewed refl

require_available-same :
    (s u : Store)
    → u.fatal_error ≡ s.fatal_error
    → require_available s ≡ ok tt
    → require_available u ≡ ok tt
unfolding require_available
require_available-same s u same available = ground (arith, same, available)

transaction-ok :
    {A : Type 0} (m : Repo A) (s : Store) (a : A) (u : Store)
    → m s ≡ (ok a, u)
    → transaction m s ≡ (ok a, u)
unfolding transaction
transaction-ok m s a u h = ap (λ x. (x.0, elim x.0 [ ok _ ↦ x.1 | err _ ↦ s ])) h

on_integrity-ok :
    {A : Type 0} (m handler : Repo A) (s : Store) (a : A) (u : Store)
    → m s ≡ (ok a, u)
    → on_integrity m handler s ≡ (ok a, u)
unfolding on_integrity
on_integrity-ok m handler s a u h = ap (λ x. recovered x.0 handler x.1) h

-- The Run of the key, as the transaction and its handler answer it.
winner_found :
    (ids : RunIds) (principal : Principal) (thread_id message key : String)
    (plan : ExecutionPlanEvidence) (now : ℕ) (id : String) (r : RunRecord) (t : ThreadRecord)
    (s : Store)
    → require_own_thread principal thread_id s ≡ ok t
    → existing_run principal thread_id key s ≡ ok (some (id, r))
    → on_integrity
        (transaction (find_or_insert_run ids principal thread_id message key plan now))
        (reread_run principal thread_id key)
        s
      ≡ (ok (id, r, false), s)
unfolding find_or_insert_run reads
winner_found ids principal thread_id message key plan now id r t s owned there =
    on_integrity-ok (transaction (find_or_insert_run ids principal thread_id message key plan now))
      (reread_run principal thread_id key) s (id, r, false) s
      (transaction-ok (find_or_insert_run ids principal thread_id message key plan now) s
        (id, r, false) s (rw (owned, there) refl))

replay :
    (ids again : RunIds) (principal : Principal) (thread_id key message : String)
    (plan plan' : ExecutionPlanEvidence) (now later : ℕ) (t : ThreadRecord) (v : RunView)
    (s u : Store)
    → require_available s ≡ ok tt
    → validate_execution_plan plan' ≡ ok plan'
    → run_view ids.run (new_run principal thread_id key plan now) ≡ ok v
    → Winning ids principal (new_run principal thread_id key plan now) t s u
    → create_run again principal thread_id message key plan' later u ≡ (ok (v, false), u)
unfolding create_run reads
replay ids again principal thread_id key message plan plan' now later t v s u available valid viewed
      w =
    let r = new_run principal thread_id key plan now in
    let owned = OwnThread-stays principal ids.run r t s u refl w.own_thread w.created in
    let there =
      existing_run-Created principal ids.run r t s u refl w.own_thread.is_owner w.no_run
        w.created in
    let winner =
      winner_found again principal thread_id message key plan' later ids.run r _ u owned there in
    rw (require_available-same s u w.created.as_open available, valid, winner)
      (view_created-old ids.run r v u viewed)

-- A request that is repeated creates no second Run: after a call of `create_run` that created a Run,
-- a call with the same thread, principal and key, whatever its ids, its message, its valid plan and its time,
-- answers the same view as one that was there, and leaves the tables alone.
pub create_run-twice :
    (ids again : RunIds) (principal : Principal) (thread_id message message' key : String)
    (plan plan' : ExecutionPlanEvidence) (now later : ℕ) (v : RunView) (s u : Store)
    → create_run ids principal thread_id message key plan now s ≡ (ok (v, true), u)
    → validate_execution_plan plan' ≡ ok plan'
    → create_run again principal thread_id message' key plan' later u ≡ (ok (v, false), u)
unfolding create_run
create_run-twice ids again principal thread_id message message' key plan plan' now later v s u h
      valid =
    let (_, available, rest) = reads-eq-ok require_available _ s h in
    let (p, _, rest) = lift-eq-ok (validate_execution_plan plan) _ s rest in
    let (a, w, won, answered) =
      continue-eq-ok
        (on_integrity (transaction (find_or_insert_run ids principal thread_id message key p now))
          (reread_run principal thread_id key) s)
        view_created rest in
    let (viewed, is_new, u_is) = view_created-ended a v w u answered in
    rw u_is (
      first p a w viewed is_new available (
        on_integrity-ended
          (transaction (find_or_insert_run ids principal thread_id message key p now))
          (reread_run principal thread_id key) s a w won))
  where
    first :
        (p : ExecutionPlanEvidence) (a : String × RunRecord × Bool) (w : Store)
        → run_view a.0 a.1 ≡ ok v
        → a.2 ≡ true
        → require_available s ≡ ok tt
        → (transaction (find_or_insert_run ids principal thread_id message key p now) s ≡ (ok a, w))
          ⊎ ((x : Store) × (reread_run principal thread_id key x ≡ (ok a, w)))
        → create_run again principal thread_id message' key plan' later w ≡ (ok (v, false), w)
    first p (id, r, b) w viewed is_new available (inr (x, reread)) =
        absurd (reread_run-old principal thread_id key id r x w (rw (← is_new) reread))
    first p (id, r, b) w viewed is_new available (inl won) =
        let (id_is, r_is, t, winning) =
          find_or_insert_run-Winning ids principal thread_id message key p now id r s w (
            transaction-eq-ok (find_or_insert_run ids principal thread_id message key p now) s
              (id, r, true) w (rw is_new at won)) in
        replay ids again principal thread_id key message' p plan' now later t v s w available valid
          (rw (id_is, r_is) at viewed) winning
