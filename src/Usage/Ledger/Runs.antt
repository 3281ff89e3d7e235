-- ===== src/Usage/Ledger/Runs.antt =====
-- The histories of a ledger: its methods in any order. Where a method awaits, the parts before and
-- after are steps of their own, so that others may come between.
use work_assistant_agent.Prelude.{ℕ, ◌≡◌, refl, true, String, Option, none, some, arith, eq_iff}
use work_assistant_agent.Prelude.Dict.{lookup, lookup-insert}
use work_assistant_agent.Usage.Run.{ProviderTokenUsage}
use work_assistant_agent.Usage.Ledger.{
  new_ledger, bind_persistence, open_attempt, start_attempt, observe_usage, record_first_visible,
}
use work_assistant_agent.Usage.Ledger.Types.{
  Attempt, RunUsageLedger, FinishStatus, Writers, ModelCallKind, ModelAttemptStart,
}
use work_assistant_agent.Usage.Ledger.Finish.{request_finish, finish_locked, settle_at, is_terminal}
use work_assistant_agent.Usage.Ledger.Invariant.{
  IsValid, Change, kept, touched, Change-IsValid, new_ledger-IsValid,
}
use work_assistant_agent.Usage.Ledger.Begin.{open_attempt-IsValid}
use work_assistant_agent.Usage.Ledger.Start.{start_attempt-IsValid}
use work_assistant_agent.Usage.Ledger.Changes.{
  bind_persistence-Change, observe_usage-Change, request_finish-Change, finish_locked-Change,
  settle_at-Change, record_first_visible-Change,
}

-- The writers that are bound answer otherwise from now on.
abbrev pub change_writers : Writers → RunUsageLedger → RunUsageLedger
change_writers w l = record l {
  start_writer = elim l.start_writer [ none ↦ none | some _ ↦ some w.write_start ];
  finish_writer = elim l.finish_writer [ none ↦ none | some _ ↦ some w.write_finish ];
  usage_writer = elim l.usage_writer [ none ↦ none | some _ ↦ some w.write_usage ];
}

-- One step. A `uuid4` is new to the attempts; a start that waits goes on once.
pub data Step (l : RunUsageLedger) : RunUsageLedger → Type 0 where
  binds : (w : Writers) → Step l (bind_persistence w l).1
  changes : (w : Writers) → Step l (change_writers w l)
  opens :
      (uuid : String) (kind : ModelCallKind) (retry_of : Option String)
      → lookup uuid l.attempts ≡ none
      → Step l (open_attempt uuid kind retry_of l).1
  resumes :
      (now : ℕ) (s : ModelAttemptStart)
      → lookup s.attempt_id l.begun ≡ some s
      → lookup s.attempt_id l.attempts ≡ none
      → Step l (start_attempt now s l).1
  observes : (id : String) (usage : ProviderTokenUsage) → Step l (observe_usage id usage l).1
  requests :
      (now : ℕ) (id : String) (status : FinishStatus) → Step l (request_finish now id status l).1
  locks : (id : String) (status : FinishStatus) → Step l (finish_locked id status l).1
  settles : (id : String) → Step l (settle_at id l).1
  sees : (now : ℕ) → Step l (record_first_visible now l)

pub data Reach (l : RunUsageLedger) : RunUsageLedger → Type 0 where
  here : Reach l l
  next : {m n : RunUsageLedger} → Reach l m → Step m n → Reach l n

pub Step-IsValid : {l m : RunUsageLedger} → Step l m → IsValid l → IsValid m
Step-IsValid {l} (binds w) v = Change-IsValid (bind_persistence-Change w l) v
Step-IsValid {l} (changes w) v = Change-IsValid (kept refl refl refl) v
Step-IsValid {l} (opens uuid kind retry_of unused) v =
    open_attempt-IsValid uuid kind retry_of l v unused
Step-IsValid {l} (resumes now s waits unused) v = start_attempt-IsValid now s l v waits
Step-IsValid {l} (observes id usage) v = Change-IsValid (observe_usage-Change id usage l) v
Step-IsValid {l} (requests now id status) v =
    Change-IsValid (request_finish-Change now id status l) v
Step-IsValid {l} (locks id status) v = Change-IsValid (finish_locked-Change id status l) v
Step-IsValid {l} (settles id) v = Change-IsValid (settle_at-Change id l) v
Step-IsValid {l} (sees now) v = Change-IsValid (record_first_visible-Change now l) v

Reach-IsValid : {l m : RunUsageLedger} → IsValid l → Reach l m → IsValid m
Reach-IsValid v here = v
Reach-IsValid v (next r s) = Step-IsValid s (Reach-IsValid v r)

-- Whatever methods were called on a new ledger, in whatever order and interleaving, also while calls
-- of begin_attempt wait for their writer, it is valid: attempts stand under their own ids, no two
-- first attempts have the same call, every call number was handed out, every retry follows a
-- terminal attempt of its call with the number before, and an attempt has a completion time exactly
-- when it is terminal.
pub new_ledger-Reach-IsValid : (now : ℕ) {m : RunUsageLedger} → Reach (new_ledger now) m → IsValid m
new_ledger-Reach-IsValid now r = Reach-IsValid (new_ledger-IsValid now) r

Change-terminal :
    {l m : RunUsageLedger} (id : String) (a : Attempt)
    → Change l m
    → lookup id l.attempts ≡ some a
    → is_terminal a ≡ true
    → lookup id m.attempts ≡ some a
Change-terminal id a (kept e n w) f over = rw e f
Change-terminal {l} id a (touched j x y g ev e n w) f over =
    rw e (ground (arith, lookup-insert j id y l.attempts, eq_iff j id, ev.was_open))

opened-lookup :
    (uuid : String) (kind : ModelCallKind) (retry_of : Option String) (l : RunUsageLedger)
    → (open_attempt uuid kind retry_of l).1.attempts ≡ l.attempts
unfolding open_attempt
opened-lookup uuid kind retry_of l = ground arith

started-lookup :
    (now : ℕ) (s : ModelAttemptStart) (l : RunUsageLedger) (id : String) (a : Attempt)
    → lookup s.attempt_id l.attempts ≡ none
    → lookup id l.attempts ≡ some a
    → lookup id (start_attempt now s l).1.attempts ≡ some a
unfolding start_attempt
started-lookup now s l id a unused f = grind (arith, lookup-insert, eq_iff)

Step-terminal :
    {l m : RunUsageLedger} (id : String) (a : Attempt)
    → Step l m
    → lookup id l.attempts ≡ some a
    → is_terminal a ≡ true
    → lookup id m.attempts ≡ some a
Step-terminal {l} id a (binds w) = Change-terminal id a (bind_persistence-Change w l)
Step-terminal {l} id a (changes w) = λ f over. f
Step-terminal {l} id a (opens uuid kind retry_of unused) =
    λ f over. rw (opened-lookup uuid kind retry_of l) f
Step-terminal {l} id a (resumes now s waits unused) = λ f over. started-lookup now s l id a unused f
Step-terminal {l} id a (observes j usage) = Change-terminal id a (observe_usage-Change j usage l)
Step-terminal {l} id a (requests now j status) =
    Change-terminal id a (request_finish-Change now j status l)
Step-terminal {l} id a (locks j status) = Change-terminal id a (finish_locked-Change j status l)
Step-terminal {l} id a (settles j) = Change-terminal id a (settle_at-Change j l)
Step-terminal {l} id a (sees now) = Change-terminal id a (record_first_visible-Change now l)

-- A terminal attempt is final: whatever is called afterwards, in whatever order and interleaving,
-- it keeps its status, its completion time and its usage.
pub Reach-terminal :
    {l m : RunUsageLedger} (id : String) (a : Attempt)
    → Reach l m
    → lookup id l.attempts ≡ some a
    → is_terminal a ≡ true
    → lookup id m.attempts ≡ some a
Reach-terminal id a here f over = f
Reach-terminal id a (next r s) f over = Step-terminal id a s (Reach-terminal id a r f over) over
