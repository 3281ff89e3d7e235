-- ===== src/Repository/Reads/Owned.antt =====
-- Only the owner reads: what an answered query says of who asked.
use work_assistant_agent.Prelude.{
  ℕ, ◌≡◌, refl, sym, ap, ◌∙◌, inl, inr, true, false, ◌||◌, String, Option, none, some, ok, err,
  is_ok, arith, eq_iff, Bool-cases,
}
use work_assistant_agent.Prelude.Dict.{lookup}
use work_assistant_agent.Capabilities.Decision.{Principal}
use work_assistant_agent.Policy.Plan.{ExecutionPlanEvidence}
use work_assistant_agent.Policy.Evidence.{ExecutionOutcomeEvidence}
use work_assistant_agent.Repository.Records.{
  RunRecord, ThreadRecord, ResourceKind, of_run, Store, Checked,
}
use work_assistant_agent.Repository.Access.{
  require_owner, is_internal, require_available, found, ◌|>=◌, ◌|>◌, require_authorized_run,
  require_run_actor,
}
use work_assistant_agent.Repository.Events.{require_run}
use work_assistant_agent.Repository.Transitions.{require_cancel}
use work_assistant_agent.Repository.Reads.{
  get_run, get_events, get_run_evidence, check_each, view_row, event_rows, stored_plan,
  stored_outcome,
}
use work_assistant_agent.Repository.Views.{run_view}

-- The Run and its thread are there, and both are the principal's, who is no internal subject.
pub record Owns (principal : Principal) (run_id : String) (s : Store) : Type 0 where
  pub run : RunRecord
  pub thread : ThreadRecord
  pub has_run : lookup run_id s.runs ≡ some run
  pub has_thread : lookup run.thread_id s.threads ≡ some thread
  pub owner : thread.owner_subject ≡ principal.subject
  pub actor : run.actor_subject ≡ principal.subject
  pub is_external : is_internal principal.subject ≡ false

require_owner-ok :
    (principal : Principal) (subject : String) (kind : ResourceKind)
    → is_ok (require_owner principal subject kind) ≡ true
    → (subject ≡ principal.subject) × (is_internal subject ≡ false)
unfolding require_owner
require_owner-ok principal subject kind h =
    (ground (arith, h, eq_iff principal.subject subject), ground (arith, h))

-- Checks that all passed.
both_ok :
    {A B : Type 0} (x : Checked A) (f : A → Checked B)
    → is_ok (x |>= f) ≡ true
    → (a : A) × (x ≡ ok a) × (is_ok (f a) ≡ true)
both_ok (ok a) f h = (a, refl, h)
both_ok (err e) f h = absurd (ground (arith, h))

found-ok : {A : Type 0} (what : String) (x : Option A) (a : A) → found what x ≡ ok a → x ≡ some a
found-ok what none a h = absurd (ground (arith, h))
found-ok what (some b) a h = ground (arith, h)

require_authorized_run-Owns :
    (principal : Principal) (run_id : String) (r : RunRecord) (s : Store)
    → lookup run_id s.runs ≡ some r
    → is_ok (require_authorized_run r principal s) ≡ true
    → Owns principal run_id s
unfolding require_authorized_run require_run_actor
require_authorized_run-Owns principal run_id r s has_run h =
    let (t, has_thread, h) = both_ok (found "run" (lookup r.thread_id s.threads)) _ h in
    let (_, owns, h) = both_ok (require_owner principal t.owner_subject of_run) _ h in
    let (_, acts, _) = both_ok (require_owner principal r.actor_subject of_run) (λ _. ok t) h in
    let (owner, external) = require_owner-ok principal t.owner_subject of_run (ap is_ok owns) in
    let (actor, _) = require_owner-ok principal r.actor_subject of_run (ap is_ok acts) in
    record {
      run = r;
      thread = t;
      has_run = has_run;
      has_thread = found-ok "run" (lookup r.thread_id s.threads) t has_thread;
      owner = owner;
      actor = actor;
      is_external = ap is_internal (sym owner) ∙ external;
    }

-- The shape of the queries of one Run.
run_query-Owns :
    {A : Type 0} (principal : Principal) (run_id : String) (s : Store)
    (rest : RunRecord → ThreadRecord → Checked A)
    → is_ok (
        require_available s |> require_run run_id s |>= λ r.
        require_authorized_run r principal s |>= rest r)
      ≡ true
    → Owns principal run_id s
unfolding require_run
run_query-Owns principal run_id s rest h =
    let (_, _, h) = both_ok (require_available s) _ h in
    let (r, has_run, h) = both_ok (found "run" (lookup run_id s.runs)) _ h in
    let (t, authorized, _) = both_ok (require_authorized_run r principal s) (rest r) h in
    require_authorized_run-Owns principal run_id r s
      (found-ok "run" (lookup run_id s.runs) r has_run) (ap is_ok authorized)

cancel-Owns :
    (principal : Principal) (run_id : String) (s : Store)
    → is_ok (require_cancel principal run_id s) ≡ true
    → Owns principal run_id s
unfolding require_cancel require_run
cancel-Owns principal run_id s h =
    let (r, has_run, h) = both_ok (found "run" (lookup run_id s.runs)) _ h in
    require_authorized_run-Owns principal run_id r s
      (found-ok "run" (lookup run_id s.runs) r has_run)
      (unfold require_authorized_run require_run_actor in h)

-- In any state, if one of these answers without an exception: the view of a Run, a page of its events,
-- its evidence, or the check before a cancellation, then the Run and its thread are there, the one
-- who asks is the owner of the thread and the actor of the Run, and is no internal subject.
pub run_queries-Owns :
    (principal : Principal) (run_id : String) (after_seq : ℕ) (s : Store)
    → (is_ok (get_run run_id principal s)
        || (is_ok (get_events run_id after_seq principal s)
            || (is_ok (get_run_evidence run_id principal s)
                || is_ok (require_cancel principal run_id s))))
      ≡ true
    → Owns principal run_id s
run_queries-Owns principal run_id after_seq s h = one_of h
  where
    viewed : is_ok (get_run run_id principal s) ≡ true → Owns principal run_id s
    viewed h = run_query-Owns principal run_id s (λ r _. run_view run_id r) (unfold get_run in h)

    paged : is_ok (get_events run_id after_seq principal s) ≡ true → Owns principal run_id s
    paged h =
        run_query-Owns principal run_id s
          (λ _ _. check_each view_row (event_rows run_id after_seq s)) (unfold get_events in h)

    evidence :
        RunRecord
        → ThreadRecord
        → Checked (Option ExecutionPlanEvidence × Option ExecutionOutcomeEvidence)
    evidence r _ = stored_plan r.execution_plan |>= λ plan.
        stored_outcome r.execution_outcome |>= λ outcome. ok (plan, outcome)

    proved : is_ok (get_run_evidence run_id principal s) ≡ true → Owns principal run_id s
    proved h = run_query-Owns principal run_id s evidence (unfold get_run_evidence in h)

    one_of :
        (is_ok (get_run run_id principal s)
            || (is_ok (get_events run_id after_seq principal s)
                || (is_ok (get_run_evidence run_id principal s)
                    || is_ok (require_cancel principal run_id s))))
          ≡ true
        → Owns principal run_id s
    one_of h = elim (Bool-cases (is_ok (get_run run_id principal s))) [
      | inl yes_view ↦ viewed yes_view
      | inr no_view ↦ elim (Bool-cases (is_ok (get_events run_id after_seq principal s))) [
        | inl yes_page ↦ paged yes_page
        | inr no_page ↦ elim (Bool-cases (is_ok (get_run_evidence run_id principal s))) [
          | inl yes_proof ↦ proved yes_proof
          | inr no_proof ↦
              cancel-Owns principal run_id s (ground (arith, h, no_view, no_page, no_proof))
        ]
      ]
    ]
