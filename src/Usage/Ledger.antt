-- ===== src/Usage/Ledger.antt =====
-- `RunUsageLedger` of backend/src/work_assistant/usage.py: the attempts of one Run at a provider.
-- A reading of the clock is an argument `now`, in whole microseconds; a new `uuid4` is an argument.
-- A durable writer is a function that answers whether its call returns (true) or raises.
-- `journal` and `begun` are no fields of the class: `journal` lists the writer calls that returned, in
-- their order, and `begun` holds the starts whose `begin_attempt` waits for the start writer.
pub mod Types
pub mod Finish
pub mod Invariant
pub mod Changes
pub mod Begin
pub mod Start
pub mod Runs
pub mod Terminal
pub mod Settle
pub mod Journal
use Types.{
  ModelCallKind, ModelAttemptStart, ModelAttemptFinish, ModelAttemptUsage, Attempt,
  ModelAttemptStatus, same_status, Write, start_row, Writers, RunUsageLedger, LedgerError,
  attempt_persistence_already_bound, attempt_persistence_bound_after_start, retry_parent_invalid,
  retry_attempt_duplicate, provider_attempt_not_active, provider_usage_conflict, writer_failed,
  same_usage,
}
use work_assistant_agent.Prelude.{
  ℕ, ◌+◌, Bool, true, false, ◌||◌, ◌&&◌, not, String, Option, none, some, List, [], ◌∷◌, ◌++◌,
  Result, ok, err, any, Exec, pure, raise, ◌>>=◌, ◌>>◌, ◌==◌, is_none, is_some, if◌then◌else◌,
}
use work_assistant_agent.Prelude.Dict.{lookup, insert, drop_key, values}
use work_assistant_agent.Usage.Run.{ProviderTokenUsage}

abbrev pub Ledger : Type 0 → Type 0
Ledger A = Exec LedgerError RunUsageLedger A

-- `RunUsageLedger.__init__`
unfoldable pub new_ledger : ℕ → RunUsageLedger
new_ledger now = record {
  started_at = now;
  attempts = [];
  next_call_index = 1;
  first_visible_at = none;
  start_writer = none;
  finish_writer = none;
  usage_writer = none;
  journal = [];
  begun = [];
}

unfoldable pub bind_persistence : Writers → Ledger (Unit {0})
bind_persistence w l =
    if is_some l.start_writer || (is_some l.finish_writer || is_some l.usage_writer)
    then (err attempt_persistence_already_bound, l)
    else if not (elim l.attempts [ [] ↦ true | _ ∷ _ ↦ false ])
    then (err attempt_persistence_bound_after_start, l)
    else (
      ok tt,
      record l {
        start_writer = some w.write_start;
        finish_writer = some w.write_finish;
        usage_writer = some w.write_usage;
      },
    )

-- The indices of the new attempt: `begin_attempt` up to the making of `start`.
unfoldable pub begin_first : Ledger (ℕ × ℕ)
begin_first l = (ok (l.next_call_index, 1), record l { next_call_index = l.next_call_index + 1 })

unfoldable pub begin_retry : Option Attempt → Ledger (ℕ × ℕ)
begin_retry none l = (err retry_parent_invalid, l)
begin_retry (some previous) l =
    let call_index = previous.start.call_index in
    let attempt_index = previous.start.attempt_index + 1 in
    if same_status previous.status ModelAttemptStatus.started
    then (err retry_parent_invalid, l)
    else if any
        (λ (a : Attempt).
          a.start.call_index == call_index && a.start.attempt_index == attempt_index)
        (values l.attempts)
    then (err retry_attempt_duplicate, l)
    else (ok (call_index, attempt_index), l)

unfoldable pub number_attempt : Option String → Ledger (ℕ × ℕ)
unfolding begin_first begin_retry
number_attempt none l = begin_first l
number_attempt (some parent) l = begin_retry (lookup parent l.attempts) l

-- `if self._start_writer is not None: await self._start_writer(start)`
unfoldable pub write_start : ModelAttemptStart → Ledger (Unit {0})
write_start s l = elim l.start_writer [
  | none ↦ (ok tt, l)
  | some w ↦
      if w s
      then (ok tt, record l { journal = l.journal ++ start_row s ∷ [] })
      else (err writer_failed, l)
]

unfoldable pub add_attempt : ℕ → ModelAttemptStart → Ledger String
add_attempt now s l = (
  ok s.attempt_id,
  record l {
    attempts =
        insert s.attempt_id
          (record {
            start = s;
            started_at = now;
            status = ModelAttemptStatus.started;
            completed_at = none;
            usage = none;
            usage_persisted = false;
            pending_finish = none;
            pending_completed_at = none;
          })
          l.attempts;
  },
)

unfoldable pub note_begun : ModelAttemptStart → Ledger ModelAttemptStart
note_begun s l = (ok s, record l { begun = insert s.attempt_id s l.begun })

-- `begin_attempt` up to its await
unfoldable pub open_attempt : String → ModelCallKind → Option String → Ledger ModelAttemptStart
unfolding number_attempt note_begun
open_attempt uuid kind retry_of = do
  index ← number_attempt retry_of
  note_begun (record {
    attempt_id = uuid;
    call_index = index.0;
    attempt_index = index.1;
    call_kind = kind;
  })

unfoldable pub leave_begun : String → RunUsageLedger → RunUsageLedger
leave_begun id l = record l { begun = drop_key id l.begun }

-- `begin_attempt` from the answer of the start writer on: it raises, or the attempt is there.
unfoldable pub start_attempt : ℕ → ModelAttemptStart → Ledger String
unfolding leave_begun write_start add_attempt
start_attempt now s l = (write_start s >> add_attempt now s) (leave_begun s.attempt_id l)

-- A call with no other between.
unfoldable pub begin_attempt : ℕ → String → ModelCallKind → Option String → Ledger String
unfolding open_attempt start_attempt
begin_attempt now uuid kind retry_of = open_attempt uuid kind retry_of >>= start_attempt now

-- `_require_started`
unfoldable pub require_started : String → Ledger Attempt
require_started id l = elim (lookup id l.attempts) [
  | none ↦ (err provider_attempt_not_active, l)
  | some a ↦
      if same_status a.status ModelAttemptStatus.started
      then (ok a, l)
      else (err provider_attempt_not_active, l)
]

-- The mutation of the attempt object that the dict holds.
abbrev pub put_attempt : String → Attempt → RunUsageLedger → RunUsageLedger
put_attempt id a l = record l { attempts = insert id a l.attempts }

unfoldable pub store_usage : String → ProviderTokenUsage → Attempt → Ledger (Unit {0})
store_usage id usage a l = elim a.usage [
  | none ↦ (ok tt, put_attempt id (record a { usage = some usage }) l)
  | some seen ↦ if same_usage seen usage then (ok tt, l) else (err provider_usage_conflict, l)
]

unfoldable pub observe_usage : String → ProviderTokenUsage → Ledger (Unit {0})
unfolding require_started store_usage
observe_usage id usage = do a ← require_started id; store_usage id usage a

unfoldable pub record_first_visible : ℕ → RunUsageLedger → RunUsageLedger
record_first_visible now l = elim l.first_visible_at [
  | none ↦ record l { first_visible_at = some now }
  | some _ ↦ l
]
