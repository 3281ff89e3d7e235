-- ===== src/Usage/Ledger/Journal.antt =====
-- With bound writers, memory never runs ahead of storage.
use work_assistant_agent.Prelude.{
  ℕ, ◌≡◌, refl, Bool, true, false, ◌||◌, ◌&&◌, String, Option, some, List, [], ◌∷◌, ◌++◌, arith,
  str_eq, eq_iff, is_some, any,
}
use work_assistant_agent.Prelude.Dict.{lookup, lookup-insert}
use work_assistant_agent.Usage.Run.{ProviderTokenUsage}
use work_assistant_agent.Usage.Ledger.{
  new_ledger, bind_persistence, open_attempt, start_attempt, observe_usage, record_first_visible,
}
use work_assistant_agent.Usage.Ledger.Types.{
  Attempt, RunUsageLedger, FinishStatus, Writers, ModelCallKind, ModelAttemptStatus,
  ModelAttemptStart, ModelAttemptFinish, Write, start_row, finish_row, usage_row, ModelAttemptUsage,
  same_status, as_status,
}
use work_assistant_agent.Usage.Ledger.Finish.{is_terminal, request_finish, finish_locked, settle_at}
use work_assistant_agent.Usage.Ledger.Runs.{
  Step, change_writers, binds, changes, opens, resumes, observes, requests, locks, settles, sees,
  Reach, here, next,
}

is_start_of : String → Write → Bool
is_start_of k (start_row s) = str_eq s.attempt_id k
is_start_of k _ = false

is_finish_of : String → ModelAttemptStatus → Write → Bool
is_finish_of k status (finish_row f) =
    str_eq f.attempt_id k && same_status (as_status f.status) status
is_finish_of k status _ = false

-- A row with a usage of the attempt.
is_usage_of : String → Write → Bool
is_usage_of k (start_row s) = false
is_usage_of k (finish_row f) = str_eq f.attempt_id k && is_some f.usage
is_usage_of k (usage_row u) = str_eq u.attempt_id k

-- The journal holds a start row, or a finish row with the status, of the attempt `k`.
pub has_start : String → List Write → Bool
has_start k rows = any (is_start_of k) rows

pub has_finish : String → ModelAttemptStatus → List Write → Bool
has_finish k status rows = any (is_finish_of k status) rows

pub has_usage : String → List Write → Bool
has_usage k rows = any (is_usage_of k) rows

module _ (k : String) where
  has_usage-append :
      (rows more : List Write) → has_usage k (rows ++ more) ≡ (has_usage k rows || has_usage k more)
  unfolding has_usage
  has_usage-append [] more = refl
  has_usage-append (r ∷ rows) more = ground (arith, has_usage-append rows more)

  has_usage-start : (s : ModelAttemptStart) → has_usage k (start_row s ∷ []) ≡ false
  unfolding has_usage is_usage_of
  has_usage-start s = refl

  has_usage-finish :
      (f : ModelAttemptFinish)
      → has_usage k (finish_row f ∷ []) ≡ (str_eq f.attempt_id k && is_some f.usage)
  unfolding has_usage is_usage_of
  has_usage-finish f = ground arith

  has_usage-usage : (u : ModelAttemptUsage) → has_usage k (usage_row u ∷ []) ≡ str_eq u.attempt_id k
  unfolding has_usage is_usage_of
  has_usage-usage u = ground arith

  has_start-append :
      (rows more : List Write) → has_start k (rows ++ more) ≡ (has_start k rows || has_start k more)
  unfolding has_start
  has_start-append [] more = refl
  has_start-append (r ∷ rows) more = ground (arith, has_start-append rows more)

  has_finish-append :
      (status : ModelAttemptStatus) (rows more : List Write)
      → has_finish k status (rows ++ more) ≡ (has_finish k status rows || has_finish k status more)
  unfolding has_finish
  has_finish-append status [] more = refl
  has_finish-append status (r ∷ rows) more = ground (arith, has_finish-append status rows more)

  has_start-start : (s : ModelAttemptStart) → has_start k (start_row s ∷ []) ≡ str_eq s.attempt_id k
  unfolding has_start is_start_of
  has_start-start s = ground arith

  has_finish-finish :
      (status : ModelAttemptStatus) (f : ModelAttemptFinish)
      → has_finish k status (finish_row f ∷ [])
        ≡ (str_eq f.attempt_id k && same_status (as_status f.status) status)
  unfolding has_finish is_finish_of
  has_finish-finish status f = ground arith

-- Every attempt has its start row, every terminal one a finish row with its status, and one whose usage
-- is marked as saved a row with a usage.
pub record IsJournalled (l : RunUsageLedger) : Type 0 where
  pub start_bound : is_some l.start_writer ≡ true
  pub finish_bound : is_some l.finish_writer ≡ true
  pub usage_bound : is_some l.usage_writer ≡ true
  pub starts :
      (k : String) (a : Attempt) → lookup k l.attempts ≡ some a → has_start k l.journal ≡ true
  pub finishes :
      (k : String) (a : Attempt)
      → lookup k l.attempts ≡ some a
      → is_terminal a ≡ true
      → has_finish k a.status l.journal ≡ true
  pub named : (k : String) (a : Attempt) → lookup k l.attempts ≡ some a → a.start.attempt_id ≡ k
  pub saved :
      (k : String) (a : Attempt)
      → lookup k l.attempts ≡ some a
      → a.usage_persisted ≡ true
      → has_usage k l.journal ≡ true
  pub noted :
      (k : String) (a : Attempt) (f : ModelAttemptFinish)
      → lookup k l.attempts ≡ some a
      → a.pending_finish ≡ some f
      → f.attempt_id ≡ k

ruleset rows = (
  arith, lookup-insert, eq_iff, has_start-append, has_finish-append, has_start-start,
  has_finish-finish, has_usage-append, has_usage-start, has_usage-finish, has_usage-usage,
)

observe_usage-IsJournalled :
    (id : String) (usage : ProviderTokenUsage) (l : RunUsageLedger)
    → IsJournalled l
    → IsJournalled (observe_usage id usage l).1
unfolding observe_usage
observe_usage-IsJournalled id usage l v = record {
  start_bound = grind (arith, v.start_bound);
  finish_bound = grind (arith, v.finish_bound);
  usage_bound = grind (arith, v.usage_bound);
  starts = λ k a h. grind (rows, v.starts);
  finishes = λ k a h over. grind (rows, v.finishes, v.noted, v.finish_bound);
  named = λ k a h. grind (rows, v.named);
  saved = λ k a h p. grind (rows, v.saved, v.noted, v.named, v.finish_bound);
  noted = λ k a f h p. grind (rows, v.noted);
}

request_finish-IsJournalled :
    (now : ℕ) (id : String) (status : FinishStatus) (l : RunUsageLedger)
    → IsJournalled l
    → IsJournalled (request_finish now id status l).1
unfolding request_finish
request_finish-IsJournalled now id status l v = record {
  start_bound = grind (arith, v.start_bound);
  finish_bound = grind (arith, v.finish_bound);
  usage_bound = grind (arith, v.usage_bound);
  starts = λ k a h. grind (rows, v.starts);
  finishes = λ k a h over. grind (rows, v.finishes, v.noted, v.finish_bound);
  named = λ k a h. grind (rows, v.named);
  saved = λ k a h p. grind (rows, v.saved, v.noted, v.named, v.finish_bound);
  noted = λ k a f h p. grind (rows, v.noted);
}

finish_locked-IsJournalled :
    (id : String) (status : FinishStatus) (l : RunUsageLedger)
    → IsJournalled l
    → IsJournalled (finish_locked id status l).1
unfolding finish_locked
finish_locked-IsJournalled id status l v = record {
  start_bound = grind (arith, v.start_bound);
  finish_bound = grind (arith, v.finish_bound);
  usage_bound = grind (arith, v.usage_bound);
  starts = λ k a h. grind (rows, v.starts);
  finishes = λ k a h over. grind (rows, v.finishes, v.noted, v.finish_bound);
  named = λ k a h. grind (rows, v.named);
  saved = λ k a h p. grind (rows, v.saved, v.noted, v.named, v.finish_bound);
  noted = λ k a f h p. grind (rows, v.noted);
}

pub settle_at-IsJournalled :
    (id : String) (l : RunUsageLedger) → IsJournalled l → IsJournalled (settle_at id l).1
unfolding settle_at
settle_at-IsJournalled id l v = record {
  start_bound = grind (arith, v.start_bound);
  finish_bound = grind (arith, v.finish_bound);
  usage_bound = grind (arith, v.usage_bound);
  starts = λ k a h. grind (rows, v.starts);
  finishes = λ k a h over. grind (rows, v.finishes, v.noted, v.finish_bound);
  named = λ k a h. grind (rows, v.named);
  saved = λ k a h p. grind (rows, v.saved, v.noted, v.named, v.finish_bound);
  noted = λ k a f h p. grind (rows, v.noted);
}

open_attempt-IsJournalled :
    (uuid : String) (kind : ModelCallKind) (retry_of : Option String) (l : RunUsageLedger)
    → IsJournalled l
    → IsJournalled (open_attempt uuid kind retry_of l).1
unfolding open_attempt
open_attempt-IsJournalled uuid kind retry_of l v = record {
  start_bound = grind (arith, v.start_bound);
  finish_bound = grind (arith, v.finish_bound);
  usage_bound = grind (arith, v.usage_bound);
  starts = λ k a h. grind (rows, v.starts);
  finishes = λ k a h over. grind (rows, v.finishes, v.noted, v.finish_bound);
  named = λ k a h. grind (rows, v.named);
  saved = λ k a h p. grind (rows, v.saved, v.noted, v.named, v.finish_bound);
  noted = λ k a f h p. grind (rows, v.noted);
}

start_attempt-IsJournalled :
    (now : ℕ) (s : ModelAttemptStart) (l : RunUsageLedger)
    → IsJournalled l
    → IsJournalled (start_attempt now s l).1
unfolding start_attempt
start_attempt-IsJournalled now s l v = record {
  start_bound = grind (arith, v.start_bound);
  finish_bound = grind (arith, v.finish_bound);
  usage_bound = grind (arith, v.usage_bound);
  starts = λ k a h. grind (rows, v.starts);
  finishes = λ k a h over. grind (rows, v.finishes, v.noted, v.finish_bound);
  named = λ k a h. grind (rows, v.named);
  saved = λ k a h p. grind (rows, v.saved, v.noted, v.named, v.finish_bound);
  noted = λ k a f h p. grind (rows, v.noted);
}

change_writers-IsJournalled :
    (w : Writers) (l : RunUsageLedger) → IsJournalled l → IsJournalled (change_writers w l)
change_writers-IsJournalled w l v = record {
  start_bound = ground (arith, v.start_bound);
  finish_bound = ground (arith, v.finish_bound);
  usage_bound = ground (arith, v.usage_bound);
  starts = v.starts;
  finishes = v.finishes;
  named = v.named;
  saved = v.saved;
  noted = v.noted;
}

record_first_visible-IsJournalled :
    (now : ℕ) (l : RunUsageLedger) → IsJournalled l → IsJournalled (record_first_visible now l)
unfolding record_first_visible
record_first_visible-IsJournalled now l v = record {
  start_bound = grind (arith, v.start_bound);
  finish_bound = grind (arith, v.finish_bound);
  usage_bound = grind (arith, v.usage_bound);
  starts = λ k a h. grind (rows, v.starts);
  finishes = λ k a h over. grind (rows, v.finishes, v.noted, v.finish_bound);
  named = λ k a h. grind (rows, v.named);
  saved = λ k a h p. grind (rows, v.saved, v.noted, v.named, v.finish_bound);
  noted = λ k a f h p. grind (rows, v.noted);
}

bind_persistence-IsJournalled :
    (w : Writers) (l : RunUsageLedger) → IsJournalled l → IsJournalled (bind_persistence w l).1
unfolding bind_persistence
bind_persistence-IsJournalled w l v = record {
  start_bound = grind (arith, v.start_bound);
  finish_bound = grind (arith, v.finish_bound);
  usage_bound = grind (arith, v.usage_bound);
  starts = λ k a h. grind (rows, v.starts);
  finishes = λ k a h over. grind (rows, v.finishes, v.noted, v.finish_bound);
  named = λ k a h. grind (rows, v.named);
  saved = λ k a h p. grind (rows, v.saved, v.noted, v.named, v.finish_bound);
  noted = λ k a f h p. grind (rows, v.noted);
}

Step-IsJournalled : {l m : RunUsageLedger} → Step l m → IsJournalled l → IsJournalled m
Step-IsJournalled {l} (binds w) v = bind_persistence-IsJournalled w l v
Step-IsJournalled {l} (changes w) v = change_writers-IsJournalled w l v
Step-IsJournalled {l} (opens uuid kind retry_of unused) v =
    open_attempt-IsJournalled uuid kind retry_of l v
Step-IsJournalled {l} (resumes now s waits unused) v = start_attempt-IsJournalled now s l v
Step-IsJournalled {l} (observes id usage) v = observe_usage-IsJournalled id usage l v
Step-IsJournalled {l} (requests now id status) v = request_finish-IsJournalled now id status l v
Step-IsJournalled {l} (locks id status) v = finish_locked-IsJournalled id status l v
Step-IsJournalled {l} (settles id) v = settle_at-IsJournalled id l v
Step-IsJournalled {l} (sees now) v = record_first_visible-IsJournalled now l v

bound-IsJournalled : (now : ℕ) (w : Writers) → IsJournalled (bind_persistence w (new_ledger now)).1
unfolding bind_persistence new_ledger lookup
bound-IsJournalled now w = record {
  start_bound = refl;
  finish_bound = refl;
  usage_bound = refl;
  starts = λ k a h. ground arith;
  finishes = λ k a h over. ground arith;
  named = λ k a h. ground arith;
  saved = λ k a h p. ground arith;
  noted = λ k a f h p. ground arith;
}

-- After `bind_persistence` on a new ledger, whatever is called in whatever order and interleaving,
-- and whichever writes fail: every attempt in memory has its durable start row, and every attempt
-- that is terminal in memory has a durable finish row with the same status.
pub Reach-IsJournalled :
    (now : ℕ) (w : Writers) {m : RunUsageLedger}
    → Reach (bind_persistence w (new_ledger now)).1 m
    → IsJournalled m
Reach-IsJournalled now w here = bound-IsJournalled now w
Reach-IsJournalled now w (next r s) = Step-IsJournalled s (Reach-IsJournalled now w r)
