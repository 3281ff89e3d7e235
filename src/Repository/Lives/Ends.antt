-- ===== src/Repository/Lives/Ends.antt =====
-- A Run that is ended: what `_write_terminal_usage` leaves, and the end as an `Advance`.
pub mod Failing
pub mod Completing
use work_assistant_agent.Prelude.{
  ℕ, suc, ◌+◌, ◌-◌, ◌≡◌, ◌≢◌, refl, sym, ap, ◌∙◌, ◌⊎◌, inl, inr, Bool, true, false, ◌&&◌, not,
  String, Option, none, some, List, [], ◌∷◌, ◌++◌, length, All, Result, ok, err, Exec, pure, raise,
  modify, lift, ◌>>=◌, ◌>>◌, arith, Bool-cases, Option-cases, Result-cases, continue-eq-ok,
  err_ne_ok, if◌then◌else◌, is_some, eq_iff, str_eq,
}
use work_assistant_agent.Prelude.Dict.{Dict, lookup, insert, values}
use work_assistant_agent.Usage.Run.{RunUsage, RunErrorCategory, metering_schema_version}
use work_assistant_agent.Usage.Ledger.Types.{ModelAttemptStatus}
use work_assistant_agent.Policy.Evidence.{ExecutionOutcomeEvidence}
use work_assistant_agent.Repository.Records.{
  RunStatus, is_active, RunRecord, EventRecord, Store, Repo, reads, put_run,
}
use work_assistant_agent.Repository.Views.{terminal_run_usage, attempts_of}
use work_assistant_agent.Repository.Transitions.{
  claim, settle_run, write_terminal_usage, close_attempts, ended_run,
}
use work_assistant_agent.Repository.Events.{require_run}
use work_assistant_agent.Repository.Lives.{
  Effect, advances, types, Life, Advance, IsSettled, IsSameRun, IsStored, IsNumbered,
}
use work_assistant_agent.Repository.Lives.Queries.{
  reads-eq-ok, Recorded, Updated, missed, hit, update_run-ended, reads_same, same_tables,
}

pub insert-insert :
    {V : Type 0} (k : String) (v w : V) (d : Dict V) → insert k w (insert k v d) ≡ insert k w d
unfolding insert
insert-insert k v w [] = ground (arith, eq_iff k k)
insert-insert k v w ((j, u) ∷ d) = ground (arith, insert-insert k v w d, eq_iff j k)

-- What the terminal usage leaves of the Run and of the tables.
pub record Metered (id : String) (r r' : RunRecord) (s u : Store) : Type 0 where
  pub run_is : r' ≡ record r { usage_metrics = r'.usage_metrics }
  pub has_usage : is_some r.metering_version ≡ true → is_some r'.usage_metrics ≡ true
  pub runs_is : (base : Dict RunRecord) → s.runs ≡ insert id r base → u.runs ≡ insert id r' base
  pub events_is : u.events ≡ s.events

close_attempts-ended :
    (id : String) (status : ModelAttemptStatus) (now : ℕ) (s u : Store) (x : Unit {0})
    → close_attempts id status now s ≡ (ok x, u)
    → (u.runs ≡ s.runs) × (u.events ≡ s.events)
unfolding close_attempts
close_attempts-ended id status now s u x h = ground (arith, h)

settle_run-ended :
    (now : ℕ) (status : ModelAttemptStatus) (category : Option RunErrorCategory) (id : String)
    (r r' : RunRecord) (s u : Store)
    → settle_run now status category id r s ≡ (ok r', u)
    → Metered id r r' s u
unfolding settle_run put_run
settle_run-ended now status category id r r' s u h =
    let (x, v, closed, rest) = continue-eq-ok (close_attempts id status now s) _ h in
    let (runs_v, events_v) = close_attempts-ended id status now s v x closed in
    let (usage, computed, written) =
      reads-eq-ok (λ s. terminal_run_usage r (attempts_of id s) now category) _ v rest in
    let r'_is : r' ≡ record r { usage_metrics = some usage } = ground (arith, written) in
    let u_is : u ≡ put_run id (record r { usage_metrics = some usage }) v =
      ground (arith, written) in
    rw (r'_is, u_is)
      (record {
        run_is = refl;
        has_usage = λ _. refl;
        runs_is = λ base s_is.
            ap (insert id (record r { usage_metrics = some usage })) (runs_v ∙ s_is)
            ∙ insert-insert id r (record r { usage_metrics = some usage }) base;
        events_is = events_v;
      })

pub write_terminal_usage-ended :
    (now : ℕ) (status : ModelAttemptStatus) (category : Option RunErrorCategory) (id : String)
    (r r' : RunRecord) (s u : Store)
    → write_terminal_usage now status category id r s ≡ (ok r', u)
    → Metered id r r' s u
unfolding write_terminal_usage
write_terminal_usage-ended now status category id r r' s u h =
    elim (Option-cases r.metering_version) [
      | inl unmetered ↦
          let r'_is : r' ≡ r = ground (arith, h, unmetered) in
          let u_is : u ≡ s = ground (arith, h, unmetered) in
          rw (r'_is, u_is)
            (record {
              run_is = refl;
              has_usage = λ metered. ground (arith, metered, unmetered);
              runs_is = λ base s_is. s_is;
              events_is = refl;
            })
      | inr (v, metered) ↦ elim (Bool-cases (str_eq v metering_schema_version)) [
        | inl current ↦
            settle_run-ended now status category id r r' s u (ground (arith, h, metered, current))
        | inr old ↦ absurd (ground (arith, h, metered, old))
      ]
    ]

-- An end that wrote its events: the Run as it was claimed and as it is answered, and the tables.
pub record Ended (id : String) (kinds : List String) (claimed r' : RunRecord)
    (base : Dict RunRecord) (s u : Store) : Type 0 where
  pub rows : Dict EventRecord
  pub run_is : r' ≡ record claimed { usage_metrics = r'.usage_metrics }
  pub has_usage : is_some claimed.metering_version ≡ true → is_some r'.usage_metrics ≡ true
  pub kinds_are : types (values rows) ≡ kinds
  pub count : length rows ≡ length kinds
  pub numbered : (n : ℕ) → claimed.last_seq ≡ n + length kinds → IsNumbered id n (values rows)
  pub stored : All IsStored (values rows)
  pub runs_is : u.runs ≡ insert id r' base
  pub events_is : u.events ≡ s.events ++ rows

-- One event after the usage.
pub Metered-Ended :
    (event_id id type : String) (claimed r : RunRecord) (e : EventRecord) (base : Dict RunRecord)
    (s v x u : Store)
    → Metered id claimed r s v
    → s.runs ≡ insert id claimed base
    → Recorded event_id id type r r.last_seq e v x
    → u.runs ≡ x.runs
    → u.events ≡ x.events
    → Ended id (type ∷ []) claimed r base s u
Metered-Ended event_id id type claimed r e base s v x u m s_is c runs_u events_u =
    let same : r.last_seq ≡ claimed.last_seq = ap (λ (q : RunRecord). q.last_seq) m.run_is in
    record {
      rows = (event_id, e) ∷ [];
      run_is = m.run_is;
      has_usage = m.has_usage;
      kinds_are = ap (λ k. k ∷ []) c.type_is;
      count = refl;
      numbered = λ n n_is. (c.run_is, c.seq_is ∙ omega (arith, same, n_is), tt);
      stored = (c.is_stored, tt);
      runs_is = runs_u ∙ ap (λ (q : Store). q.runs) c.store_is ∙ m.runs_is base s_is;
      events_is =
          events_u
          ∙ ap (λ (q : Store). q.events) c.store_is
          ∙ ap (λ l. l ++ (event_id, e) ∷ []) m.events_is;
    }

ended_run-IsSettled :
    (status : RunStatus) (now n : ℕ) (outcome : Option ExecutionOutcomeEvidence) (r r' : RunRecord)
    → is_active status ≡ false
    → r' ≡ record (ended_run status now n outcome r) { usage_metrics = r'.usage_metrics }
    → (is_some r.metering_version ≡ true → is_some r'.usage_metrics ≡ true)
    → IsSettled r'
unfolding ended_run
ended_run-IsSettled status now n outcome r r' inactive r'_is has = record {
  completion = ground (
    arith,
    ap (λ (q : RunRecord). q.completed_at) r'_is,
    ap (λ (q : RunRecord). q.status) r'_is,
    inactive,
  );
  no_usage =
      λ active. absurd (ground (arith, active, ap (λ (q : RunRecord). q.status) r'_is, inactive));
  no_outcome =
      λ active. absurd (ground (arith, active, ap (λ (q : RunRecord). q.status) r'_is, inactive));
  has_usage =
      λ _ metered. has (ap (λ (q : RunRecord). is_some q.metering_version) (sym r'_is) ∙ metered);
}

pub Ended-Effect :
    (id : String) (kinds : List String) (status : RunStatus) (now : ℕ)
    (outcome : Option ExecutionOutcomeEvidence) (r r' : RunRecord) (s u : Store)
    → is_active status ≡ false
    → lookup id s.runs ≡ some r
    → Life r.status status kinds
    → Ended id kinds
        (ended_run status now (length kinds) outcome r)
        r'
        s.runs
        (put_run id (ended_run status now (length kinds) outcome r) s)
        u
    → Effect s u
unfolding ended_run put_run
Ended-Effect id kinds status now outcome r r' s u inactive found life h =
    let status_is : r'.status ≡ status = ap (λ (q : RunRecord). q.status) h.run_is in
    let seq_is : r'.last_seq ≡ r.last_seq + length kinds =
      ap (λ (q : RunRecord). q.last_seq) h.run_is in
    advances id r r' h.rows found
      (record {
        life = rw (status_is, h.kinds_are) life;
        numbered = h.numbered r.last_seq refl;
        counted = omega (arith, seq_is, h.count);
        stored = h.stored;
        same = record {
          same_thread = ap (λ (q : RunRecord). q.thread_id) h.run_is;
          same_key = ap (λ (q : RunRecord). q.idempotency_key) h.run_is;
          same_actor = ap (λ (q : RunRecord). q.actor_subject) h.run_is;
          same_plan = ap (λ (q : RunRecord). q.execution_plan) h.run_is;
          same_metering = ap (λ (q : RunRecord). q.metering_version) h.run_is;
          same_creation = ap (λ (q : RunRecord). q.created_at) h.run_is;
        };
        settled = λ _.
            ended_run-IsSettled status now (length kinds) outcome r r' inactive h.run_is
              h.has_usage;
      })
      h.runs_is h.events_is

-- A claimed Run that is ended.
pub claim-Effect :
    (id : String) (kinds : List String) (status : RunStatus) (now : ℕ)
    (outcome : Option ExecutionOutcomeEvidence) (guard : RunRecord → Bool)
    (body : RunRecord → Repo RunRecord) (s : Store)
    → is_active status ≡ false
    → ((r : RunRecord) → guard r ≡ true → Life r.status status kinds)
    → ((claimed a : RunRecord) (v u : Store)
        → v.runs ≡ insert id claimed s.runs
        → body claimed v ≡ (ok a, u)
        → Ended id kinds claimed a s.runs v u)
    → (a : RunRecord) (u : Store)
    → claim id guard (ended_run status now (length kinds) outcome) body s ≡ (ok a, u)
    → Effect s u
unfolding claim put_run
claim-Effect id kinds status now outcome guard body s inactive life ends a u h = ended (
    update_run-ended id guard _ (reads (require_run id)) body s a u (reads_same (require_run id) s)
      h)
  where
    ended : Updated id guard (ended_run status now (length kinds) outcome) body s a u → Effect s u
    ended (missed u_is _) = rw u_is same_tables
    ended (hit r found fits h) =
        Ended-Effect id kinds status now outcome r a s u inactive found (life r fits)
          (ends _ a _ u refl h)
