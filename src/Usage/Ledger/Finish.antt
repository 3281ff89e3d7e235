-- ===== src/Usage/Ledger/Finish.antt =====
-- `finish_attempt`, `settle_for_terminal` and `_persist_pending_finish` of `RunUsageLedger`
-- (backend/src/work_assistant/usage.py). `finish_attempt` is cut where it waits for the lock:
-- `request_finish` runs before, and `finish_locked`, which reads the attempt anew, under the lock.
use work_assistant_agent.Prelude.{
  ℕ, Bool, true, false, not, String, Option, none, some, List, [], ◌∷◌, ◌++◌, ok, err, pure, raise,
  ◌>>=◌, ◌>>◌, is_some, if◌then◌else◌,
}
use work_assistant_agent.Prelude.Dict.{lookup, keys}
use work_assistant_agent.Usage.Ledger.{Ledger, put_attempt}
use work_assistant_agent.Usage.Ledger.Types.{
  ModelAttemptStatus, FinishStatus, as_status, same_status, ModelAttemptFinish, ModelAttemptUsage,
  same_finish, Attempt, finish_row, usage_row, provider_attempt_unknown,
  provider_attempt_terminal_conflict, provider_attempt_pending_finish_invalid, writer_failed,
}

-- `attempt.status != "started"`
abbrev pub is_terminal : Attempt → Bool
is_terminal a = not (same_status a.status ModelAttemptStatus.started)

-- The attempt after its finish was written.
abbrev pub settled : ModelAttemptFinish → ℕ → Attempt → Attempt
settled finish completed_at a = record a {
  status = as_status finish.status;
  completed_at = some completed_at;
  usage_persisted = is_some finish.usage;
  pending_finish = none;
  pending_completed_at = none;
}

unfoldable pub write_finish : ModelAttemptFinish → Ledger (Unit {0})
write_finish finish l = elim l.finish_writer [
  | none ↦ (ok tt, l)
  | some w ↦
      if w finish
      then (ok tt, record l { journal = l.journal ++ finish_row finish ∷ [] })
      else (err writer_failed, l)
]

unfoldable pub persist_finish :
    String → Attempt → Option ModelAttemptFinish → Option ℕ → Ledger (Unit {0})
persist_finish id a (some finish) (some completed_at) =
    write_finish finish >> λ l. (ok tt, put_attempt id (settled finish completed_at a) l)
persist_finish id a _ _ = raise provider_attempt_pending_finish_invalid

-- `_persist_pending_finish`, of the attempt that stands at `id`
unfoldable pub persist_pending_finish : String → Attempt → Ledger (Unit {0})
unfolding persist_finish write_finish
persist_pending_finish id a = persist_finish id a a.pending_finish a.pending_completed_at

-- A repeated terminal: the same status is accepted, another is a conflict.
unfoldable pub repeat_finish : FinishStatus → Attempt → Ledger (Unit {0})
repeat_finish status a l =
    if same_status a.status (as_status status)
    then (ok tt, l)
    else (err provider_attempt_terminal_conflict, l)

unfoldable pub note_pending : ℕ → String → ModelAttemptFinish → Attempt → Ledger (Unit {0})
note_pending now id finish a l = elim a.pending_finish [
  | none ↦ (
    ok tt,
    put_attempt id (record a { pending_finish = some finish; pending_completed_at = some now }) l,
  )
  | some noted ↦
      if same_finish noted finish then (ok tt, l) else (err provider_attempt_terminal_conflict, l)
]

-- `finish_attempt` before the lock: true means that the lock is taken next, false that it returned.
unfoldable pub request_finish : ℕ → String → FinishStatus → Ledger Bool
unfolding repeat_finish note_pending
request_finish now id status l = elim (lookup id l.attempts) [
  | none ↦ (err provider_attempt_unknown, l)
  | some a ↦
      if is_terminal a
      then (repeat_finish status a >> pure false) l
      else (note_pending now id (record { attempt_id = id; status = status; usage = a.usage }) a
            >> pure true)
          l
]

-- `finish_attempt` under the lock
unfoldable pub finish_locked : String → FinishStatus → Ledger (Unit {0})
unfolding repeat_finish persist_pending_finish
finish_locked id status l = elim (lookup id l.attempts) [
  | none ↦ (err provider_attempt_unknown, l)
  | some a ↦ if is_terminal a then repeat_finish status a l else persist_pending_finish id a l
]

unfoldable pub finish_attempt : ℕ → String → FinishStatus → Ledger (Unit {0})
unfolding request_finish finish_locked
finish_attempt now id status = do
  locks ← request_finish now id status
  if locks then finish_locked id status else pure tt

unfoldable pub write_usage : String → Attempt → Ledger (Unit {0})
write_usage id a l = elim a.usage [
  | none ↦ (ok tt, l)
  | some usage ↦ if a.usage_persisted then (ok tt, l) else elim l.usage_writer [
    | none ↦ (ok tt, l)
    | some w ↦
        let row : ModelAttemptUsage = record { attempt_id = a.start.attempt_id; usage = usage } in
        if w row
        then (
          ok tt,
          put_attempt id (record a { usage_persisted = true })
              (record l { journal = l.journal ++ usage_row row ∷ [] }),
        )
        else (err writer_failed, l)
  ]
]

-- One round of the loop of `settle_for_terminal`
unfoldable pub settle_one : String → Attempt → Ledger (Unit {0})
unfolding persist_pending_finish write_usage
settle_one id a =
    if is_terminal a
    then pure tt
    else if is_some a.pending_finish
    then persist_pending_finish id a
    else write_usage id a

unfoldable pub settle_at : String → Ledger (Unit {0})
unfolding settle_one
settle_at id l = elim (lookup id l.attempts) [ none ↦ (ok tt, l) | some a ↦ settle_one id a l ]

-- The loop over the attempts, of which it keeps the order and the number.
unfoldable pub settle_each : List String → Ledger (Unit {0})
settle_each [] = pure tt
settle_each (id ∷ ids) = settle_at id >> settle_each ids

unfoldable pub settle_for_terminal : Ledger (Unit {0})
unfolding settle_each settle_at
settle_for_terminal l = settle_each (keys l.attempts) l
