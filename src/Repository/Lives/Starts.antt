-- ===== src/Repository/Lives/Starts.antt =====
-- The effects of `start_run` and of `append_active_event`, and of the methods on model attempts,
-- which leave Runs and events alone.
use work_assistant_agent.Prelude.{
  ℕ, ◌+◌, ◌≡◌, refl, ap, ◌∙◌, Bool, true, false, not, String, Option, none, some, [], ◌∷◌, Result,
  ok, err, pure, ◌>>=◌, ◌>>◌, arith, continue-eq-ok, contains, if◌then◌else◌, Result-cases, inl,
  inr,
}
use work_assistant_agent.Prelude.Dict.{lookup}
use work_assistant_agent.Schemas.Payload.{
  EventFault, runtime_event_not_allowed, Payload, validate_product_event, validate_runtime_event,
  runtime_event_types,
}
use work_assistant_agent.Repository.Records.{
  RunStatus, is_active, is_created, is_running, RunRecord, EventRecord, Store, reads, put_run,
  update_run,
}
use work_assistant_agent.Repository.Access.{require_internal_run_consistency}
use work_assistant_agent.Repository.Views.{accepted, event_view}
use work_assistant_agent.Repository.Events.{
  record_event, require_run, after_update, started_run, started_with, status_only, start_run,
  appended_run, appended_with, view_appended, append_active_event,
}
use work_assistant_agent.Repository.Lives.{
  Effect, advances, Life, starts, emits, IsSettled, IsSameRun,
}
use work_assistant_agent.Repository.Lives.Methods.{method-Effect, plain_method-Effect}
use work_assistant_agent.Schemas.Payload.Stored.{has_run, validate_runtime_event-has_run}
use work_assistant_agent.Repository.Lives.Queries.{
  reads-eq-ok, reads_same_then, Recorded, record_event-ended, Updated, missed, hit,
  update_run-ended, same_tables,
}

-- One more event of a Run that stays active.
Recorded-Effect :
    (event_id id type : String) (r r' : RunRecord) (e : EventRecord) (s u : Store)
    → lookup id s.runs ≡ some r
    → Recorded event_id id type r' r'.last_seq e (put_run id r' s) u
    → Life r.status r'.status (type ∷ [])
    → r'.last_seq ≡ r.last_seq + 1
    → IsSameRun r r'
    → (IsSettled r → IsSettled r')
    → Effect s u
unfolding put_run
Recorded-Effect event_id id type r r' e s u found c life seq_is same settled =
    advances id r r' ((event_id, e) ∷ []) found
      (record {
        life = rw c.type_is life;
        numbered = (c.run_is, c.seq_is ∙ omega (arith, seq_is), tt);
        counted = seq_is;
        stored = (c.is_stored, tt);
        same = same;
        settled = settled;
      })
      (ap (λ (q : Store). q.runs) c.store_is) (ap (λ (q : Store). q.events) c.store_is)

-- A change of the status within the active ones, and of what comes with an event.
active-Settled :
    (r : RunRecord) (status : RunStatus) (seq : ℕ) (visible : Option ℕ)
    → is_active r.status ≡ true
    → is_active status ≡ true
    → IsSettled r
    → IsSettled (record r { status = status; last_seq = seq; first_visible_at = visible })
active-Settled r status seq visible was is v = record {
  completion = ground (arith, v.completion, was, is);
  no_usage = λ _. v.no_usage was;
  no_outcome = λ _. v.no_outcome was;
  has_usage = λ inactive. absurd (ground (arith, inactive, is));
}

start-Life :
    (r : RunRecord)
    → is_created r.status ≡ true
    → Life r.status RunStatus.running ("run.started" ∷ [])
start-Life r h = from r.status h
  where
    from : (a : RunStatus) → is_created a ≡ true → Life a RunStatus.running ("run.started" ∷ [])
    from RunStatus.created h = starts
    from a h = absurd (ground (arith, h))

kept_run :
    (r : RunRecord) (status : RunStatus) (seq : ℕ) (visible : Option ℕ)
    → IsSameRun r (record r { status = status; last_seq = seq; first_visible_at = visible })
kept_run r status seq visible = record {
  same_thread = refl;
  same_key = refl;
  same_actor = refl;
  same_plan = refl;
  same_metering = refl;
  same_creation = refl;
}

started-Effect :
    (event_id id : String) (now : ℕ) (r : RunRecord) (a : Bool) (s u : Store)
    → lookup id s.runs ≡ some r
    → is_created r.status ≡ true
    → started_with event_id id now (started_run r) (put_run id (started_run r) s) ≡ (ok a, u)
    → Effect s u
unfolding started_with started_run
started-Effect event_id id now r a s u found created h =
    let q = started_run r in
    let (_, _, rest) = reads-eq-ok (require_internal_run_consistency false q) _ _ h in
    let (e, x, recorded, rest) =
      continue-eq-ok
        (record_event event_id id q "run.started" (status_only "running") q.last_seq now
          (put_run id q s))
        _ rest in
    let u_is : u ≡ x = ground (arith, rest) in
    rw u_is (
      Recorded-Effect event_id id "run.started" r q e s x found
        (record_event-ended event_id id "run.started" q _ q.last_seq now e _ x refl recorded)
        (start-Life r created) refl (kept_run r RunStatus.running q.last_seq r.first_visible_at)
        (active-Settled r RunStatus.running q.last_seq r.first_visible_at (ground (arith, created))
          refl))

-- What `start_run` does to the tables.
pub start_run-Effect :
    (event_id id : String) (now : ℕ) (s : Store) → Effect s (start_run event_id id now s).1
unfolding start_run
start_run-Effect event_id id now s =
    plain_method-Effect
      (update_run id (λ r. is_created r.status) started_run >>= λ updated.
        after_update updated (reads (require_run id) >> pure false) (started_with event_id id now))
      s
      (λ a u h. ended a u (
        update_run-ended id _ started_run (reads (require_run id) >> pure false)
          (started_with event_id id now) s a u (reads_same_then (require_run id) false s) h))
  where
    ended :
        (a : Bool) (u : Store)
        → Updated id (λ r. is_created r.status) started_run (started_with event_id id now) s a u
        → Effect s u
    ended a u (missed u_is _) = rw u_is same_tables
    ended a u (hit r found created h) = started-Effect event_id id now r a s u found created h

view_appended-same :
    (event_id : String) (a : Option EventRecord) (u : Store) → (view_appended event_id a u).1 ≡ u
unfolding view_appended
view_appended-same event_id none u = refl
view_appended-same event_id (some e) u = elim (Result-cases (event_view event_id e)) [
  | inl (f, refused) ↦ rw refused refl
  | inr (v, viewed) ↦ rw viewed refl
]

checked_type :
    (type : String) (checked : String × Payload) (x : Result EventFault Payload)
    → accepted (elim x [ ok q ↦ ok (type, q) | err e ↦ err e ]) ≡ ok checked
    → checked.0 ≡ type
checked_type type checked (ok q) h = ground (arith, h)
checked_type type checked (err e) h = absurd (ground (arith, h))

runtime_has_run :
    (type : String) (p : Payload) (checked : String × Payload)
    → accepted (validate_runtime_event type p) ≡ ok checked
    → has_run checked.1 ≡ true
runtime_has_run type p checked h = elim (Result-cases (validate_runtime_event type p)) [
  | inl (e, bad) ↦ absurd (ground (arith, h, bad))
  | inr (x, good) ↦
      let x_is : x ≡ checked = ground (arith, h, good) in
      rw (← x_is) (validate_runtime_event-has_run type p x good)
]

runtime_type :
    (type : String) (p : Payload) (checked : String × Payload)
    → accepted (validate_runtime_event type p) ≡ ok checked
    → contains checked.0 runtime_event_types ≡ true
unfolding validate_runtime_event
runtime_type type p checked h = of_type (contains type runtime_event_types) refl h
  where
    of_type :
        (known : Bool)
        → contains type runtime_event_types ≡ known
        → accepted (
            if not known
            then err runtime_event_not_allowed
            else elim (validate_product_event type p) [ ok q ↦ ok (type, q) | err e ↦ err e ])
          ≡ ok checked
        → contains checked.0 runtime_event_types ≡ true
    of_type false k h = absurd (ground (arith, h))
    of_type true k h = rw (checked_type type checked (validate_product_event type p) h) k

emit-Life :
    (r : RunRecord) (type : String)
    → is_running r.status ≡ true
    → contains type runtime_event_types ≡ true
    → Life r.status r.status (type ∷ [])
emit-Life r type h fits = from r.status h
  where
    from : (a : RunStatus) → is_running a ≡ true → Life a a (type ∷ [])
    from RunStatus.running h = emits type fits
    from a h = absurd (ground (arith, h))

appended-Effect :
    (event_id id : String) (checked : String × Payload) (now : ℕ) (r : RunRecord)
    (a : Option EventRecord) (s u : Store)
    → contains checked.0 runtime_event_types ≡ true
    → has_run checked.1 ≡ true
    → lookup id s.runs ≡ some r
    → is_running r.status ≡ true
    → appended_with event_id id checked now
        (appended_run checked.0 now r)
        (put_run id (appended_run checked.0 now r) s)
      ≡ (ok a, u)
    → Effect s u
unfolding appended_with appended_run
appended-Effect event_id id checked now r a s u fits kept found running h =
    let q = appended_run checked.0 now r in
    let (_, _, rest) = reads-eq-ok (require_internal_run_consistency false q) _ _ h in
    let (e, x, recorded, rest) =
      continue-eq-ok
        (record_event event_id id q checked.0 checked.1 q.last_seq now (put_run id q s)) _ rest in
    let u_is : u ≡ x = ground (arith, rest) in
    rw u_is (
      Recorded-Effect event_id id checked.0 r q e s x found
        (record_event-ended event_id id checked.0 q _ q.last_seq now e _ x kept recorded)
        (emit-Life r checked.0 running fits) refl
        (kept_run r r.status q.last_seq q.first_visible_at)
        (active-Settled r r.status q.last_seq q.first_visible_at (ground (arith, running))
          (ground (arith, running))))

-- What `append_active_event` does to the tables.
pub append_active_event-Effect :
    (event_id id type : String) (p : Payload) (now : ℕ) (s : Store)
    → Effect s (append_active_event event_id id type p now s).1
unfolding append_active_event
append_active_event-Effect event_id id type p now s =
    method-Effect (accepted (validate_runtime_event type p))
      (λ checked.
        update_run id (λ r. is_running r.status) (appended_run checked.0 now) >>= λ updated.
        after_update updated (reads (require_run id) >> pure none)
          (appended_with event_id id checked now))
      (view_appended event_id) s (view_appended-same event_id)
      (λ checked a u fits h.
        ended checked a u (runtime_type type p checked fits) (runtime_has_run type p checked fits) (
          update_run-ended id _ (appended_run checked.0 now) (reads (require_run id) >> pure none)
            (appended_with event_id id checked now) s a u (reads_same_then (require_run id) none s)
            h))
  where
    ended :
        (checked : String × Payload) (a : Option EventRecord) (u : Store)
        → contains checked.0 runtime_event_types ≡ true
        → has_run checked.1 ≡ true
        → Updated id
            (λ r. is_running r.status)
            (appended_run checked.0 now)
            (appended_with event_id id checked now)
            s
            a
            u
        → Effect s u
    ended checked a u fits kept (missed u_is _) = rw u_is same_tables
    ended checked a u fits kept (hit r found running h) =
        appended-Effect event_id id checked now r a s u fits kept found running h
