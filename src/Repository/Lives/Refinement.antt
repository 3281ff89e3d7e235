-- ===== src/Repository/Lives/Refinement.antt =====
-- The repository refines the abstract machine of a Run, and an end is final.
use work_assistant_agent.Prelude.{
  ℕ, ◌≡◌, ◌≢◌, refl, ap, subst, ◌∙◌, inl, inr, Bool, false, String, some, List, [], ◌∷◌, ◌++◌,
  arith, str_eq, eq_iff, Bool-cases,
}
use work_assistant_agent.Prelude.Dict.{Dict, lookup, values, lookup-insert}
use work_assistant_agent.Repository.Records.{RunStatus, is_active, RunRecord, EventRecord, Store}
use work_assistant_agent.Repository.Lives.{
  Life, types, IsSameRun, Advance, Effect, quiet, creates, advances, Effects, unchanged, next,
}
use work_assistant_agent.Repository.Lives.Log.{
  log_of, log_in, log_of-advance, log_in-own, log_in-other, append_nil, types-append,
}
use work_assistant_agent.Repository.Lives.Threads.{Life-from_active}
use work_assistant_agent.Repository.Lives.Histories.{Step, Step-Effects, Reach, Reach-Effects}

-- The abstract machine, in any number of transitions: a status with a log of event types.
pub data Lives : RunStatus → List String → RunStatus → List String → Type 0 where
  stays : {a : RunStatus} {log : List String} → Lives a log a log
  lives :
      {a b c : RunStatus} {log mid kinds : List String}
      → Lives a log b mid
      → Life b c kinds
      → Lives a log c (mid ++ kinds)

-- What a Run has become.
pub record Became (id : String) (r : RunRecord) (log : List String) (t : Store) : Type 0 where
  pub now : RunRecord
  pub found : lookup id t.runs ≡ some now
  pub same : IsSameRun r now
  pub lived : Lives r.status log now.status (types (log_of id t))

IsSameRun-refl : (r : RunRecord) → IsSameRun r r
IsSameRun-refl r = record {
  same_thread = refl;
  same_key = refl;
  same_actor = refl;
  same_plan = refl;
  same_metering = refl;
  same_creation = refl;
}

IsSameRun-trans : {r q p : RunRecord} → IsSameRun r q → IsSameRun q p → IsSameRun r p
IsSameRun-trans a b = record {
  same_thread = b.same_thread ∙ a.same_thread;
  same_key = b.same_key ∙ a.same_key;
  same_actor = b.same_actor ∙ a.same_actor;
  same_plan = b.same_plan ∙ a.same_plan;
  same_metering = b.same_metering ∙ a.same_metering;
  same_creation = b.same_creation ∙ a.same_creation;
}

lookup-append_old :
    (id j : String) (v w : RunRecord) (d : Dict RunRecord)
    → lookup j d ≡ some w
    → lookup j (d ++ (id, v) ∷ []) ≡ some w
unfolding lookup
lookup-append_old id j v w [] h = ground (arith, h)
lookup-append_old id j v w ((k, u) ∷ d) h = ground (arith, h, lookup-append_old id j v w d)

-- One effect on one Run: nothing, or one transition with its events.
pub data Touched (id : String) (r : RunRecord) (s t : Store) : Type 0 where
  untouched : lookup id t.runs ≡ some r → log_of id t ≡ log_of id s → Touched id r s t
  advanced :
      (r' : RunRecord) (rows : Dict EventRecord)
      → Advance id r r' rows
      → lookup id t.runs ≡ some r'
      → log_of id t ≡ log_of id s ++ values rows
      → Touched id r s t

one_row :
    {i j : String} {r q : RunRecord}
    → i ≡ j
    → (d : Dict RunRecord) → lookup i d ≡ some r
    → lookup j d ≡ some q
    → r ≡ q
one_row same d found_r found_q = ground (arith, same, found_r, found_q)

pub Effect-Touched :
    {s t : Store} (id : String) (r : RunRecord)
    → Effect s t
    → lookup id s.runs ≡ some r
    → Touched id r s t
Effect-Touched id r (quiet runs_is events_is) found =
    untouched (rw runs_is found) (ap (λ d. log_in id (values d)) events_is)
Effect-Touched {s} id r (creates j q _ _ _ _ _ runs_is events_is) found =
    untouched (rw runs_is (lookup-append_old j id q r s.runs found))
      (ap (λ d. log_in id (values d)) events_is)
Effect-Touched {s} {t} id r (advances j q q' rows before a runs_is events_is) found =
    let log_is : log_of id t ≡ log_of id s ++ log_in id (values rows) =
      ap (λ d. log_in id (values d)) events_is ∙ log_of-advance id s rows in
    elim (Bool-cases (str_eq j id)) [
      | inl same ↦
          let j_is = (eq_iff j id).0 same in
          let q_is = one_row j_is s.runs before found in
          let b = subst (λ k. Advance k r q' rows) j_is (subst (λ p. Advance j p q' rows) q_is a) in
          advanced q' rows b (rw runs_is (ground (arith, lookup-insert j id q' s.runs, same))) (
            log_is ∙ ap (λ l. log_of id s ++ l) (log_in-own id r.last_seq (values rows) b.numbered))
      | inr other ↦
          let differ : j ≢ id = λ j_is. ground (arith, j_is, other, eq_iff j id) in
          untouched (rw runs_is (ground (arith, found, lookup-insert j id q' s.runs, other))) (
            log_is
            ∙ rw (log_in-other j id q.last_seq (values rows) differ a.numbered)
                (append_nil (log_of id s)))
    ]

Effects-Became :
    {s t : Store} (id : String) (r : RunRecord)
    → Effects s t
    → lookup id s.runs ≡ some r
    → Became id r (types (log_of id s)) t
Effects-Became id r unchanged found = record {
  now = r;
  found = found;
  same = IsSameRun-refl r;
  lived = stays;
}
Effects-Became {s} {t} id r (next {t = m} es e) found =
    let b = Effects-Became id r es found in touched b (Effect-Touched id b.now e b.found)
  where
    touched :
        (b : Became id r (types (log_of id s)) m)
        → Touched id b.now m t
        → Became id r (types (log_of id s)) t
    touched b (untouched found_t log_is) = record {
      now = b.now;
      found = found_t;
      same = b.same;
      lived = rw log_is b.lived;
    }
    touched b (advanced r' rows a found_t log_is) = record {
      now = r';
      found = found_t;
      same = IsSameRun-trans b.same a.same;
      lived = rw (log_is, types-append (log_of id m) (values rows)) (lives b.lived a.life);
    }

-- Whatever method is called, in whatever state of the tables, a Run stays in them with its thread,
-- key, actor, plan and time of creation, and its status and its log move along transitions of the
-- abstract machine: from created to running with "run.started", while running with a runtime event,
-- from running to completed with the message and "run.completed", and from either of the two to
-- failed or cancelled with that event.
pub Step-refines :
    (is_control : ℕ → Bool) {s t : Store} (id : String) (r : RunRecord)
    → Step is_control s t
    → lookup id s.runs ≡ some r
    → Became id r (types (log_of id s)) t
Step-refines is_control id r st found = Effects-Became id r (Step-Effects is_control st) found

inactive-Effects :
    {s t : Store} (id : String) (r : RunRecord)
    → Effects s t
    → lookup id s.runs ≡ some r
    → is_active r.status ≡ false
    → (lookup id t.runs ≡ some r) × (log_of id t ≡ log_of id s)
inactive-Effects id r unchanged found ended = (found, refl)
inactive-Effects {s} {t} id r (next {t = m} es e) found ended =
    let (found_m, log_m) = inactive-Effects id r es found ended in
    touched log_m (Effect-Touched id r e found_m)
  where
    touched :
        log_of id m ≡ log_of id s
        → Touched id r m t
        → (lookup id t.runs ≡ some r) × (log_of id t ≡ log_of id s)
    touched log_m (untouched found_t log_is) = (found_t, log_is ∙ log_m)
    touched log_m (advanced r' rows a _ _) = absurd (ground (arith, Life-from_active a.life, ended))

-- An end is final: once a Run is completed, failed or cancelled, its row is the same for ever, with
-- its outcome, its usage and its time of completion, and no event is added to its log, whatever
-- methods are called afterwards, however often and in whatever order.
pub Reach-final :
    (is_control : ℕ → Bool) {s t : Store} (id : String) (r : RunRecord)
    → Reach is_control s t
    → lookup id s.runs ≡ some r
    → is_active r.status ≡ false
    → (lookup id t.runs ≡ some r) × (log_of id t ≡ log_of id s)
Reach-final is_control id r h found ended =
    inactive-Effects id r (Reach-Effects is_control h) found ended
