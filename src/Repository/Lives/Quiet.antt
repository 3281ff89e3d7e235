-- ===== src/Repository/Lives/Quiet.antt =====
-- The methods that leave Runs and events alone: those on model attempts, and on the rows of threads.
use work_assistant_agent.Prelude.{
  ℕ, ◌≡◌, refl, sym, ap, Bool, true, false, ◌||◌, not, String, Option, none, some, ok, pure, raise,
  gets, modify, ◌>>=◌, ◌>>◌, arith, err_ne_ok, if◌then◌else◌,
}
use work_assistant_agent.Capabilities.Decision.{Principal}
use work_assistant_agent.Usage.Ledger.Types.{
  ModelAttemptStart, ModelAttemptFinish, ModelAttemptUsage,
}
use work_assistant_agent.Repository.Records.{
  is_active, is_running, RunRecord, ThreadRecord, ModelAttemptRecord, RepositoryError,
  usage_metering, Store, Repo, Checked, reads, transaction, add_attempt, put_attempt, put_thread,
  add_thread,
}
use work_assistant_agent.Repository.Access.{require_available, require_internal_run_consistency}
use work_assistant_agent.Repository.Views.{ThreadSummary, thread_summary}
use work_assistant_agent.Repository.Events.{require_run}
use work_assistant_agent.Repository.Attempts.{
  is_metered, existing_attempt, new_attempt, is_same_start, is_started, has_tokens,
  finished_attempt, insert_start, start_model_attempt, attempt_of_run, close_attempt,
  finish_model_attempt, observe_attempt, record_model_attempt_usage,
}
use work_assistant_agent.Repository.Creation.{
  new_thread, create_thread, rename_thread, require_own_thread,
}
use work_assistant_agent.Repository.Lives.{Effect, quiet}
use work_assistant_agent.Repository.Lives.Methods.{
  plain_method-Effect, open-Effect, view-Effect, transaction-Effect,
}
use work_assistant_agent.Repository.Lives.Queries.{reads-eq-ok}

abbrev IsQuiet : {A : Type 0} → Repo A → Type 0
IsQuiet {A} m =
    (s : Store) (a : A) (u : Store) → m s ≡ (ok a, u) → (u.runs ≡ s.runs) × (u.events ≡ s.events)

module _ {A : Type 0} where
  guarded-IsQuiet :
      (c : Bool) (e : RepositoryError) (m : Repo A) → IsQuiet m → IsQuiet (if c then raise e else m)
  guarded-IsQuiet true e m h s a u m_is = absurd (err_ne_ok m_is)
  guarded-IsQuiet false e m h s a u m_is = h s a u m_is

  early-IsQuiet : (c : Bool) (b : A) (m : Repo A) → IsQuiet m → IsQuiet (if c then pure b else m)
  early-IsQuiet true b m h s a u m_is =
      let u_is : u ≡ s = sym (ap (λ x. x.1) m_is) in rw u_is (refl, refl)
  early-IsQuiet false b m h s a u m_is = h s a u m_is

module _ {A B : Type 0} where
  reads-IsQuiet :
      (f : Store → Checked A) (k : A → Repo B) → ((a : A) → IsQuiet (k a)) → IsQuiet (reads f >>= k)
  reads-IsQuiet f k h s b u m_is = let (a, _, rest) = reads-eq-ok f k s m_is in h a s b u rest

add_attempt-IsQuiet : (id : String) (a : ModelAttemptRecord) → IsQuiet (add_attempt id a)
unfolding add_attempt
add_attempt-IsQuiet id a s x u h = ground (arith, h)

put_attempt-IsQuiet :
    (id : String) (a : ModelAttemptRecord) → IsQuiet (put_attempt id a >> pure true)
unfolding put_attempt
put_attempt-IsQuiet id a s x u h = ground (arith, h)

put_thread-IsQuiet :
    {A : Type 0} (id : String) (t : ThreadRecord) (a : A)
    → IsQuiet (modify (put_thread id t) >> pure a)
unfolding put_thread
put_thread-IsQuiet id t a s x u h =
    let u_is : u ≡ put_thread id t s = sym (ap (λ x. x.1) h) in rw u_is (refl, refl)

add_thread-IsQuiet : (id : String) (t : ThreadRecord) → IsQuiet (add_thread id t)
unfolding add_thread
add_thread-IsQuiet id t s x u h = ground (arith, h)

gets-IsQuiet :
    {A B : Type 0} (f : Store → A) (k : A → Repo B)
    → ((a : A) → IsQuiet (k a))
    → IsQuiet (gets f >>= k)
gets-IsQuiet f k h s b u m_is = h (f s) s b u m_is

method-IsQuiet :
    {A : Type 0} (body : Repo A) (s : Store)
    → IsQuiet body
    → Effect s ((reads require_available >> transaction body) s).1
method-IsQuiet body s h =
    plain_method-Effect body s
      (λ a u body_is. let (runs_is, events_is) = h s a u body_is in quiet runs_is events_is)

raise-IsQuiet : {A : Type 0} (e : RepositoryError) → IsQuiet {A = A} (raise e)
raise-IsQuiet e s a u h = absurd (err_ne_ok h)

choose-IsQuiet :
    {A : Type 0} (c : Bool) (m n : Repo A) → IsQuiet m → IsQuiet n → IsQuiet (if c then m else n)
choose-IsQuiet true m n hm hn = hm
choose-IsQuiet false m n hm hn = hn

-- The methods that look an attempt up and change it while the Run is active.
abbrev attempt_method : String → String → String → (ModelAttemptRecord → Repo Bool) → Repo Bool
attempt_method id unknown attempt_id change = reads (require_run id) >>= λ r.
    reads (require_internal_run_consistency false r)
    >> reads (attempt_of_run unknown id attempt_id)
    >>= λ a. if not (is_active r.status) then pure false else change a

attempt_method-IsQuiet :
    (id unknown attempt_id : String) (change : ModelAttemptRecord → Repo Bool)
    → ((a : ModelAttemptRecord) → IsQuiet (change a))
    → IsQuiet (attempt_method id unknown attempt_id change)
attempt_method-IsQuiet id unknown attempt_id change h s b u m_is =
    let (r, _, rest) = reads-eq-ok (require_run id) _ s m_is in
    let (_, _, rest) = reads-eq-ok (require_internal_run_consistency false r) _ s rest in
    let (a, _, rest) = reads-eq-ok (attempt_of_run unknown id attempt_id) _ s rest in
    early-IsQuiet (not (is_active r.status)) false (change a) (h a) s b u rest

insert_start-IsQuiet :
    (id : String) (start : ModelAttemptStart) (now : ℕ) (r : RunRecord)
    → IsQuiet (insert_start id start now r)
unfolding insert_start
insert_start-IsQuiet id start now r =
    gets-IsQuiet (λ (s : Store). existing_attempt id start s.attempts) (inserted) (from)
  where
    inserted : Option (String × ModelAttemptRecord) → Repo (Unit {0})
    inserted none = add_attempt start.attempt_id (new_attempt id start now r)
    inserted (some row) =
        if is_same_start id start row.0 row.1
        then pure tt
        else raise (usage_metering "model_attempt_start_conflict")

    from : (x : Option (String × ModelAttemptRecord)) → IsQuiet (inserted x)
    from none = add_attempt-IsQuiet start.attempt_id (new_attempt id start now r)
    from (some row) =
        early-IsQuiet (is_same_start id start row.0 row.1) tt
          (raise (usage_metering "model_attempt_start_conflict"))
          (raise-IsQuiet (usage_metering "model_attempt_start_conflict"))

-- What `start_model_attempt` does to the tables.
pub start_model_attempt-Effect :
    (id : String) (start : ModelAttemptStart) (now : ℕ) (s : Store)
    → Effect s (start_model_attempt id start now s).1
unfolding start_model_attempt
start_model_attempt-Effect id start now s = method-IsQuiet _ s (
    reads-IsQuiet (require_run id) starting (λ r.
      reads-IsQuiet (require_internal_run_consistency false r) (λ _. after r)
        (λ _.
          guarded-IsQuiet (not (is_running r.status) || not (is_metered r.metering_version)) _ _
            (insert_start-IsQuiet id start now r))))
  where
    after : RunRecord → Repo (Unit {0})
    after r =
        if not (is_running r.status) || not (is_metered r.metering_version)
        then raise (usage_metering "model_attempt_run_not_meterable")
        else insert_start id start now r

    starting : RunRecord → Repo (Unit {0})
    starting r = reads (require_internal_run_consistency false r) >> after r

close_attempt-IsQuiet :
    (finish : ModelAttemptFinish) (now : ℕ) (a : ModelAttemptRecord)
    → IsQuiet (close_attempt finish now a)
unfolding close_attempt
close_attempt-IsQuiet finish now a =
    choose-IsQuiet (not (is_started a.status)) _ _ (early-IsQuiet _ true _ (raise-IsQuiet _))
      (put_attempt-IsQuiet finish.attempt_id (finished_attempt finish now a))

-- What `finish_model_attempt` does to the tables.
pub finish_model_attempt-Effect :
    (id : String) (finish : ModelAttemptFinish) (now : ℕ) (s : Store)
    → Effect s (finish_model_attempt id finish now s).1
unfolding finish_model_attempt
finish_model_attempt-Effect id finish now s = method-IsQuiet _ s (
    attempt_method-IsQuiet id "model_attempt_finish_unknown" finish.attempt_id
      (close_attempt finish now) (close_attempt-IsQuiet finish now))

observe_attempt-IsQuiet :
    (observed : ModelAttemptUsage) (a : ModelAttemptRecord) → IsQuiet (observe_attempt observed a)
unfolding observe_attempt
observe_attempt-IsQuiet observed a =
    choose-IsQuiet (has_tokens a.tokens) _ _ (early-IsQuiet _ true _ (raise-IsQuiet _)) (
      guarded-IsQuiet (not (is_started a.status)) _ _
        (put_attempt-IsQuiet observed.attempt_id (record a { tokens = observed.usage })))

-- What `record_model_attempt_usage` does to the tables.
pub record_model_attempt_usage-Effect :
    (id : String) (observed : ModelAttemptUsage) (s : Store)
    → Effect s (record_model_attempt_usage id observed s).1
unfolding record_model_attempt_usage
record_model_attempt_usage-Effect id observed s = method-IsQuiet _ s (
    attempt_method-IsQuiet id "model_attempt_usage_unknown" observed.attempt_id
      (observe_attempt observed) (observe_attempt-IsQuiet observed))

-- What `create_thread` does to the tables.
pub create_thread-Effect :
    (id : String) (principal : Principal) (title : Option String) (now : ℕ) (s : Store)
    → Effect s (create_thread id principal title now s).1
unfolding create_thread
create_thread-Effect id principal title now s =
    open-Effect (transaction (add_thread id t) >> pure (thread_summary id t)) s (
      view-Effect (transaction (add_thread id t)) (λ _. pure (thread_summary id t)) s (λ _ _. refl)
        (transaction-Effect (add_thread id t) s (λ a u h.
          let (runs_is, events_is) = add_thread-IsQuiet id t s a u h in quiet runs_is events_is)))
  where
    t : ThreadRecord
    t = new_thread principal title now

-- What `rename_thread` does to the tables.
pub rename_thread-Effect :
    (id : String) (principal : Principal) (title : String) (now : ℕ) (s : Store)
    → Effect s (rename_thread id principal title now s).1
unfolding rename_thread
rename_thread-Effect id principal title now s = method-IsQuiet _ s (
    reads-IsQuiet (require_own_thread principal id) renaming
      (λ t. put_thread-IsQuiet id (renamed t) (thread_summary id (renamed t))))
  where
    renamed : ThreadRecord → ThreadRecord
    renamed t = record t { title = title; updated_at = now }

    renaming : ThreadRecord → Repo ThreadSummary
    renaming t = modify (put_thread id (renamed t)) >> pure (thread_summary id (renamed t))
