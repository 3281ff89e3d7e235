-- ===== src/Usage/Ledger/Terminal.antt =====
-- Finishing an attempt: what a finished attempt holds, what a second finish does, and an error that
-- never comes.
use work_assistant_agent.Prelude.{
  ℕ, ◌≡◌, ◌≢◌, true, String, none, some, arith, eq_iff, Option-cases, inl, inr, ok, err,
  if◌then◌else◌,
}
use work_assistant_agent.Prelude.Dict.{lookup, lookup-insert}
use work_assistant_agent.Usage.Ledger.Types.{
  Attempt, RunUsageLedger, FinishStatus, as_status, same_status, same_finish,
  provider_attempt_terminal_conflict, provider_attempt_pending_finish_invalid,
}
use work_assistant_agent.Usage.Ledger.Finish.{is_terminal, finish_attempt}
use work_assistant_agent.Usage.Ledger.Invariant.{IsValid}

module _ (now : ℕ) (id : String) (status : FinishStatus) (l m : RunUsageLedger)
    (returned : finish_attempt now id status l ≡ (ok tt, m)) where
  finished_at : (a : Attempt) → lookup id m.attempts ≡ some a → a.status ≡ as_status status
  unfolding finish_attempt same_finish
  finished_at a f = grind (arith, lookup-insert, eq_iff)

  finished_there : lookup id m.attempts ≢ none
  unfolding finish_attempt same_finish
  finished_there f = grind (arith, lookup-insert, eq_iff)

finish_again :
    (now : ℕ) (id : String) (status : FinishStatus) (a : Attempt) (l : RunUsageLedger)
    → lookup id l.attempts ≡ some a
    → is_terminal a ≡ true
    → finish_attempt now id status l ≡ (
        if same_status a.status (as_status status)
        then (ok tt, l)
        else (err provider_attempt_terminal_conflict, l))
unfolding finish_attempt
finish_again now id status a l f over = ground arith

terminal_status :
    (a : Attempt) (status : FinishStatus) → a.status ≡ as_status status → is_terminal a ≡ true
terminal_status a FinishStatus.succeeded e = ground arith
terminal_status a FinishStatus.failed e = ground arith
terminal_status a FinishStatus.cancelled e = ground arith

-- Once a finish has returned, a second one with the same status returns and changes nothing, and
-- one with another status raises the terminal conflict and changes nothing.
pub finish_attempt-twice :
    (now later : ℕ) (id : String) (status again : FinishStatus) (l m : RunUsageLedger)
    → finish_attempt now id status l ≡ (ok tt, m)
    → finish_attempt later id again m ≡ (
        if same_status (as_status status) (as_status again)
        then (ok tt, m)
        else (err provider_attempt_terminal_conflict, m))
finish_attempt-twice now later id status again l m h = elim (Option-cases (lookup id m.attempts)) [
  | inl gone ↦ absurd (finished_there now id status l m h gone)
  | inr (a, f) ↦
      let e = finished_at now id status l m h a f in
      rw (← e) (finish_again later id again a m f (terminal_status a status e))
]

-- In a valid ledger a finish never meets a noted finish that lacks its time.
pub finish_attempt-pending_valid :
    (now : ℕ) (id : String) (status : FinishStatus) (l : RunUsageLedger)
    → IsValid l
    → (finish_attempt now id status l).0 ≢ err provider_attempt_pending_finish_invalid
unfolding finish_attempt same_finish
finish_attempt-pending_valid now id status l v h = elim (Option-cases (lookup id l.attempts)) [
  | inl e ↦ ground arith
  | inr (a, f) ↦ let n = (v.at id a f).noted in grind (arith, lookup-insert, eq_iff)
]
