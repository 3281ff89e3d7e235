-- ===== src/Usage/Ledger/Types.antt =====
-- The evidence records and the state of `RunUsageLedger` (backend/src/work_assistant/usage.py).
use work_assistant_agent.Prelude.{
  ℕ, Bool, true, false, ◌&&◌, String, Option, none, some, List, ◌==◌, str_eq,
}
use work_assistant_agent.Prelude.Dict.{Dict}
use work_assistant_agent.Usage.Run.{ProviderTokenUsage}

pub data ModelCallKind : Type 0 where
  direct decision finalizer : ModelCallKind

pub data ModelAttemptStatus : Type 0 where
  started succeeded failed cancelled interrupted : ModelAttemptStatus

-- `Literal["succeeded", "failed", "cancelled"]`
pub data FinishStatus : Type 0 where
  succeeded failed cancelled : FinishStatus

abbrev pub as_status : FinishStatus → ModelAttemptStatus
as_status FinishStatus.succeeded = ModelAttemptStatus.succeeded
as_status FinishStatus.failed = ModelAttemptStatus.failed
as_status FinishStatus.cancelled = ModelAttemptStatus.cancelled

abbrev pub same_status : ModelAttemptStatus → ModelAttemptStatus → Bool
same_status ModelAttemptStatus.started ModelAttemptStatus.started = true
same_status ModelAttemptStatus.succeeded ModelAttemptStatus.succeeded = true
same_status ModelAttemptStatus.failed ModelAttemptStatus.failed = true
same_status ModelAttemptStatus.cancelled ModelAttemptStatus.cancelled = true
same_status ModelAttemptStatus.interrupted ModelAttemptStatus.interrupted = true
same_status _ _ = false

pub record ModelAttemptStart : Type 0 where
  pub attempt_id : String
  pub call_index : ℕ
  pub attempt_index : ℕ
  pub call_kind : ModelCallKind

pub record ModelAttemptFinish : Type 0 where
  pub attempt_id : String
  pub status : FinishStatus
  pub usage : Option ProviderTokenUsage

pub record ModelAttemptUsage : Type 0 where
  pub attempt_id : String
  pub usage : ProviderTokenUsage

-- `==` of the frozen models
abbrev pub same_count : Option ℕ → Option ℕ → Bool
same_count none none = true
same_count (some a) (some b) = a == b
same_count _ _ = false

unfoldable pub same_usage : ProviderTokenUsage → ProviderTokenUsage → Bool
same_usage u v =
    same_count u.input_tokens v.input_tokens
    && (same_count u.output_tokens v.output_tokens
        && (same_count u.cached_tokens v.cached_tokens
            && (same_count u.reasoning_tokens v.reasoning_tokens
                && same_count u.total_tokens v.total_tokens)))

abbrev pub same_usage? : Option ProviderTokenUsage → Option ProviderTokenUsage → Bool
same_usage? none none = true
same_usage? (some u) (some v) = same_usage u v
same_usage? _ _ = false

unfoldable pub same_finish : ModelAttemptFinish → ModelAttemptFinish → Bool
same_finish f g =
    str_eq f.attempt_id g.attempt_id
    && (same_status (as_status f.status) (as_status g.status) && same_usage? f.usage g.usage)

-- `_Attempt`
pub record Attempt : Type 0 where
  pub start : ModelAttemptStart
  pub started_at : ℕ
  pub status : ModelAttemptStatus
  pub completed_at : Option ℕ
  pub usage : Option ProviderTokenUsage
  pub usage_persisted : Bool
  pub pending_finish : Option ModelAttemptFinish
  pub pending_completed_at : Option ℕ

-- The rows that the durable writers were called with.
pub data Write : Type 0 where
  start_row : ModelAttemptStart → Write
  finish_row : ModelAttemptFinish → Write
  usage_row : ModelAttemptUsage → Write

-- The callbacks of `bind_persistence`: whether a call with a row returns, as things stand. They may
-- answer otherwise later (`change_writers` of Usage/Ledger/Runs).
pub record Writers : Type 0 where
  pub write_start : ModelAttemptStart → Bool
  pub write_finish : ModelAttemptFinish → Bool
  pub write_usage : ModelAttemptUsage → Bool

pub record RunUsageLedger : Type 0 where
  pub started_at : ℕ
  pub attempts : Dict Attempt
  pub next_call_index : ℕ
  pub first_visible_at : Option ℕ
  pub start_writer : Option (ModelAttemptStart → Bool)
  pub finish_writer : Option (ModelAttemptFinish → Bool)
  pub usage_writer : Option (ModelAttemptUsage → Bool)
  pub journal : List Write
  pub begun : Dict ModelAttemptStart

-- `UsageMeteringError`, and the exception of a writer that failed.
pub data LedgerError : Type 0 where
  attempt_persistence_already_bound attempt_persistence_bound_after_start : LedgerError
  retry_parent_invalid retry_attempt_duplicate provider_attempt_not_active : LedgerError
  provider_usage_conflict provider_attempt_unknown provider_attempt_terminal_conflict : LedgerError
  provider_attempt_pending_finish_invalid writer_failed : LedgerError
