-- ===== src/Repository/Lives/Ends/Completing.antt =====
-- The effect of `complete_run`: the answer and the end are two events with consecutive numbers.
use work_assistant_agent.Prelude.{
  ℕ, ◌-◌, ◌≡◌, refl, ap, ◌∙◌, true, false, String, Option, none, some, List, [], ◌∷◌, ◌++◌, ok,
  arith, continue-eq-ok,
}
use work_assistant_agent.Prelude.Dict.{Dict, insert}
use work_assistant_agent.Usage.Run.{RunErrorCategory}
use work_assistant_agent.Usage.Ledger.Types.{ModelAttemptStatus}
use work_assistant_agent.Policy.Evidence.{OutcomeStatus, ExecutionOutcomeEvidence}
use work_assistant_agent.Schemas.Payload.{with_message}
use work_assistant_agent.Repository.Records.{
  RunStatus, is_running, RunRecord, EventRecord, MessageRecord, ThreadRecord, Store, put_thread,
  add_message,
}
use work_assistant_agent.Repository.Access.{require_internal_run_consistency}
use work_assistant_agent.Repository.Views.{view_usage, message_view}
use work_assistant_agent.Repository.Events.{record_event}
use work_assistant_agent.Repository.Transitions.{
  CompletionIds, write_terminal_usage, claim, ended_run, completed_with, complete_run,
  terminal_data, view_of, answer_message, validated_terminal_outcome,
}
use work_assistant_agent.Repository.Lives.{Effect, Life, completes}
use work_assistant_agent.Repository.Lives.Queries.{
  reads-eq-ok, lift-eq-ok, Recorded, record_event-ended,
}
use work_assistant_agent.Repository.Lives.Methods.{method-Effect}
use work_assistant_agent.Repository.Lives.Ends.{
  Ended, Metered, claim-Effect, write_terminal_usage-ended,
}

pub add_message-ended :
    (id : String) (m : MessageRecord) (s u : Store) (x : Unit {0})
    → add_message id m s ≡ (ok x, u)
    → (u.runs ≡ s.runs) × (u.events ≡ s.events)
unfolding add_message
add_message-ended id m s u x h = ground (arith, h)

append_assoc : {A : Type 0} (xs : List A) (y z : A) → (xs ++ y ∷ []) ++ z ∷ [] ≡ xs ++ y ∷ z ∷ []
append_assoc [] y z = refl
append_assoc (x ∷ xs) y z = ap (λ l. x ∷ l) (append_assoc xs y z)

-- Two events after the usage.
Metered-Completed :
    (ids : CompletionIds) (id : String) (claimed r : RunRecord) (e f : EventRecord)
    (base : Dict RunRecord) (s v w x y : Store)
    → Metered id claimed r s v
    → s.runs ≡ insert id claimed base
    → (w.runs ≡ v.runs) × (w.events ≡ v.events)
    → Recorded ids.message_event id "message.completed" r (r.last_seq - 1) e w x
    → Recorded ids.run_event id "run.completed" r r.last_seq f x y
    → Ended id ("message.completed" ∷ "run.completed" ∷ []) claimed r base s y
Metered-Completed ids id claimed r e f base s v w x y m s_is (runs_w, events_w) c d =
    let same : r.last_seq ≡ claimed.last_seq = ap (λ (q : RunRecord). q.last_seq) m.run_is in
    let events_y : y.events ≡ (w.events ++ (ids.message_event, e) ∷ []) ++ (ids.run_event, f) ∷ [] =
      ap (λ (q : Store). q.events) d.store_is
      ∙ ap (λ (q : Store). q.events ++ (ids.run_event, f) ∷ []) c.store_is in
    record {
      rows = (ids.message_event, e) ∷ (ids.run_event, f) ∷ [];
      run_is = m.run_is;
      has_usage = m.has_usage;
      kinds_are = rw (c.type_is, d.type_is) refl;
      count = refl;
      numbered = λ n n_is. (
        c.run_is,
        c.seq_is ∙ omega (arith, same, n_is),
        (d.run_is, d.seq_is ∙ omega (arith, same, n_is), tt),
      );
      stored = (c.is_stored, (d.is_stored, tt));
      runs_is =
          ap (λ (q : Store). q.runs) d.store_is
          ∙ ap (λ (q : Store). q.runs) c.store_is
          ∙ runs_w
          ∙ m.runs_is base s_is;
      events_is =
          events_y
          ∙ append_assoc w.events _ _
          ∙ ap (λ l. l ++ (ids.message_event, e) ∷ (ids.run_event, f) ∷ [])
              (events_w ∙ m.events_is);
    }

completed_with-Ended :
    (ids : CompletionIds) (id content : String) (category : Option RunErrorCategory) (now : ℕ)
    (claimed r : RunRecord) (base : Dict RunRecord) (s u : Store)
    → s.runs ≡ insert id claimed base
    → completed_with ids id content category now claimed s ≡ (ok r, u)
    → Ended id ("message.completed" ∷ "run.completed" ∷ []) claimed r base s u
unfolding completed_with put_thread
completed_with-Ended ids id content category now claimed r base s u s_is h =
    let (q, v, metered, rest) =
      continue-eq-ok (write_terminal_usage now ModelAttemptStatus.interrupted category id claimed s)
        _ h in
    let (usage, _, rest) = lift-eq-ok (view_usage q) _ v rest in
    let (t, _, rest) = reads-eq-ok (require_internal_run_consistency false q) _ v rest in
    let message = answer_message id content now q in
    let (a, w, added, rest) = continue-eq-ok (add_message ids.message message v) _ rest in
    let (e, x, answered, rest) =
      continue-eq-ok
        (record_event ids.message_event id q "message.completed"
          (with_message (message_view ids.message message)) (q.last_seq - 1) now w)
        _ rest in
    let (f, y, ended, rest) =
      continue-eq-ok
        (record_event ids.run_event id q "run.completed" (terminal_data "completed" none usage)
          q.last_seq now x)
        _ rest in
    let q_is : r ≡ q = ground (arith, rest) in
    let u_is : u ≡ put_thread q.thread_id (record t { updated_at = now }) y =
      ground (arith, rest) in
    rw (q_is, u_is)
      (touched _ (
        Metered-Completed ids id claimed q e f base s v w x y
          (write_terminal_usage-ended now _ category id claimed q s v metered) s_is
          (add_message-ended ids.message message v w a added)
          (record_event-ended ids.message_event id "message.completed" q _ _ now e w x refl
            answered)
          (record_event-ended ids.run_event id "run.completed" q _ q.last_seq now f x y refl
            ended)))
  where
    touched :
        {q : RunRecord} {y : Store} (threads : Dict ThreadRecord)
        → Ended id ("message.completed" ∷ "run.completed" ∷ []) claimed q base s y
        → Ended id
            ("message.completed" ∷ "run.completed" ∷ [])
            claimed
            q
            base
            s
            (record y { threads = threads })
    touched threads h = record {
      rows = h.rows;
      run_is = h.run_is;
      has_usage = h.has_usage;
      kinds_are = h.kinds_are;
      count = h.count;
      numbered = h.numbered;
      stored = h.stored;
      runs_is = h.runs_is;
      events_is = h.events_is;
    }

-- What `complete_run` does to the tables.
pub complete_run-Effect :
    (ids : CompletionIds) (id content : String) (outcome : ExecutionOutcomeEvidence)
    (category : Option RunErrorCategory) (now : ℕ) (s : Store)
    → Effect s (complete_run ids id content outcome category now s).1
unfolding complete_run view_of
complete_run-Effect ids id content outcome category now s =
    method-Effect (validated_terminal_outcome outcome OutcomeStatus.completed none)
      (λ o.
        claim id (λ r. is_running r.status) (ended_run RunStatus.completed now 2 (some o))
          (completed_with ids id content category now))
      (view_of id) s (λ a u. refl)
      (λ o a u _ h.
        claim-Effect id ("message.completed" ∷ "run.completed" ∷ []) RunStatus.completed now
          (some o) _ (completed_with ids id content category now) s refl
          (λ r running. completion r.status running)
          (λ claimed a v u. completed_with-Ended ids id content category now claimed a s.runs v u) a
          u h)
  where
    completion :
        (status : RunStatus)
        → is_running status ≡ true
        → Life status RunStatus.completed ("message.completed" ∷ "run.completed" ∷ [])
    completion RunStatus.running h = completes
    completion status h = absurd (ground (arith, h))
