-- ===== src/Usage/Ledger/Changes.antt =====
-- What each operation but `begin_attempt` changes in the attempts.
pub mod Sequences
use work_assistant_agent.Prelude.{
  ℕ, ◌≡◌, refl, Bool, true, false, String, Option, none, some, List, [], ◌∷◌, Result, ok, err,
  arith, pure, continue, Option-cases, Bool-cases, inl, inr, is_some, if◌then◌else◌,
}
use work_assistant_agent.Prelude.Dict.{lookup, insert, keys}
use work_assistant_agent.Usage.Run.{ProviderTokenUsage}
use work_assistant_agent.Usage.Ledger.{
  Ledger, put_attempt, store_usage, require_started, observe_usage, bind_persistence,
  record_first_visible,
}
use work_assistant_agent.Usage.Ledger.Types.{
  Attempt, RunUsageLedger, FinishStatus, ModelAttemptFinish, Writers, ModelAttemptStatus,
  LedgerError,
}
use work_assistant_agent.Usage.Ledger.Finish.{
  is_terminal, settled, write_finish, persist_finish, persist_pending_finish, repeat_finish,
  note_pending, request_finish, finish_locked, write_usage, settle_one, settle_at, settle_each,
  settle_for_terminal, finish_attempt,
}
use work_assistant_agent.Usage.Ledger.Invariant.{AttemptIsValid, Evolves, Change, kept, touched}

module _ (id : String) (a : Attempt) (l : RunUsageLedger) (found : lookup id l.attempts ≡ some a)
    (open_attempt : is_terminal a ≡ false) where
  usage-Evolves : (o : Option ProviderTokenUsage) → Evolves id a (record a { usage = o })
  usage-Evolves o = record {
    same_start = refl;
    was_open = open_attempt;
    keeps = λ v. record {
      named = v.named;
      call_from_one = v.call_from_one;
      attempt_from_one = v.attempt_from_one;
      completed = v.completed;
      noted = v.noted;
      not_noted = v.not_noted;
    };
  }

  store_usage-Change : (usage : ProviderTokenUsage) → Change l (store_usage id usage a l).1
  unfolding store_usage
  store_usage-Change usage = elim (Option-cases a.usage) [
    | inl e ↦
        touched id a (record a { usage = some usage }) found (usage-Evolves (some usage))
          (ground arith) (ground arith) (ground arith)
    | inr (seen, e) ↦ kept (ground arith) (ground arith) (ground arith)
  ]

  note_pending-Change :
      (now : ℕ) (finish : ModelAttemptFinish) → Change l (note_pending now id finish a l).1
  unfolding note_pending
  note_pending-Change now finish = elim (Option-cases a.pending_finish) [
    | inl e ↦
        touched id a (record a { pending_finish = some finish; pending_completed_at = some now })
          found
          (record {
            same_start = refl;
            was_open = open_attempt;
            keeps = λ v. record {
              named = v.named;
              call_from_one = v.call_from_one;
              attempt_from_one = v.attempt_from_one;
              completed = v.completed;
              noted = refl;
              not_noted = λ h. ground arith;
            };
          })
          (ground arith) (ground arith) (ground arith)
    | inr (seen, e) ↦ kept (ground arith) (ground arith) (ground arith)
  ]

  settled-Evolves : (finish : ModelAttemptFinish) (at : ℕ) → Evolves id a (settled finish at a)
  settled-Evolves finish at = record {
    same_start = refl;
    was_open = open_attempt;
    keeps = λ v. record {
      named = v.named;
      call_from_one = v.call_from_one;
      attempt_from_one = v.attempt_from_one;
      completed = ground arith;
      noted = refl;
      not_noted = λ h. refl;
    };
  }

  -- A write that fails leaves the attempts alone.
  persist_finish-Change :
      (finish : Option ModelAttemptFinish) (at : Option ℕ)
      → Change l (persist_finish id a finish at l).1
  unfolding persist_finish write_finish
  persist_finish-Change (some finish) (some at) = elim (Option-cases l.finish_writer) [
    | inl e ↦
        touched id a (settled finish at a) found (settled-Evolves finish at) (ground arith)
          (ground arith) (ground arith)
    | inr (w, e) ↦ elim (Bool-cases (w finish)) [
      | inl wrote ↦
          touched id a (settled finish at a) found (settled-Evolves finish at) (ground arith)
            (ground arith) (ground arith)
      | inr failed ↦ kept (ground arith) (ground arith) (ground arith)
    ]
  ]
  persist_finish-Change none _ = kept refl refl refl
  persist_finish-Change (some finish) none = kept refl refl refl

  persist_pending_finish-Change : Change l (persist_pending_finish id a l).1
  unfolding persist_pending_finish
  persist_pending_finish-Change = persist_finish-Change a.pending_finish a.pending_completed_at

  persisted-Evolves : Evolves id a (record a { usage_persisted = true })
  persisted-Evolves = record {
    same_start = refl;
    was_open = open_attempt;
    keeps = λ v. record {
      named = v.named;
      call_from_one = v.call_from_one;
      attempt_from_one = v.attempt_from_one;
      completed = v.completed;
      noted = v.noted;
      not_noted = v.not_noted;
    };
  }

  write_usage-Change : Change l (write_usage id a l).1
  unfolding write_usage
  write_usage-Change = elim (Option-cases a.usage) [
    | inl e ↦ kept (ground arith) (ground arith) (ground arith)
    | inr (usage, e) ↦ elim (Bool-cases a.usage_persisted) [
      | inl before ↦ kept (ground arith) (ground arith) (ground arith)
      | inr first ↦ elim (Option-cases l.usage_writer) [
        | inl e' ↦ kept (ground arith) (ground arith) (ground arith)
        | inr (w, e') ↦
            elim (Bool-cases (w (record { attempt_id = a.start.attempt_id; usage = usage }))) [
              | inl wrote ↦
                  touched id a (record a { usage_persisted = true }) found persisted-Evolves
                    (ground arith) (ground arith) (ground arith)
              | inr failed ↦ kept (ground arith) (ground arith) (ground arith)
            ]
      ]
    ]
  ]

unchanged : (l : RunUsageLedger) → Change l l
unchanged l = kept refl refl refl

module _ (id : String) {a : Attempt} (l : RunUsageLedger) (e : lookup id l.attempts ≡ some a) where
  module _ (still : is_terminal a ≡ false) where
    observe_open :
        (usage : ProviderTokenUsage) → observe_usage id usage l ≡ store_usage id usage a l
    unfolding observe_usage
    observe_open usage = ground arith

    request_open :
        (now : ℕ) (status : FinishStatus)
        → (request_finish now id status l).1
          ≡ (note_pending now id
              (record { attempt_id = id; status = status; usage = a.usage })
              a
              l).1
    unfolding request_finish
    request_open now status = ground arith

    finish_open :
        (status : FinishStatus) → finish_locked id status l ≡ persist_pending_finish id a l
    unfolding finish_locked
    finish_open status = ground arith

  request_over :
      (now : ℕ) (status : FinishStatus)
      → is_terminal a ≡ true
      → (request_finish now id status l).1 ≡ l
  unfolding request_finish
  request_over now status over = ground arith

  finish_over : (status : FinishStatus) → is_terminal a ≡ true → (finish_locked id status l).1 ≡ l
  unfolding finish_locked
  finish_over status over = ground arith

pub observe_usage-Change :
    (id : String) (usage : ProviderTokenUsage) (l : RunUsageLedger)
    → Change l (observe_usage id usage l).1
unfolding observe_usage
observe_usage-Change id usage l = elim (Option-cases (lookup id l.attempts)) [
  | inl e ↦ kept (ground arith) (ground arith) (ground arith)
  | inr (a, e) ↦ elim (Bool-cases (is_terminal a)) [
    | inl over ↦ kept (ground arith) (ground arith) (ground arith)
    | inr still ↦ rw (observe_open id l e still usage) (store_usage-Change id a l e still usage)
  ]
]

pub request_finish-Change :
    (now : ℕ) (id : String) (status : FinishStatus) (l : RunUsageLedger)
    → Change l (request_finish now id status l).1
unfolding request_finish
request_finish-Change now id status l = elim (Option-cases (lookup id l.attempts)) [
  | inl e ↦ kept (ground arith) (ground arith) (ground arith)
  | inr (a, e) ↦ elim (Bool-cases (is_terminal a)) [
    | inl over ↦ kept (ground arith) (ground arith) (ground arith)
    | inr still ↦
        rw (request_open id l e still now status) (note_pending-Change id a l e still now _)
  ]
]

pub finish_locked-Change :
    (id : String) (status : FinishStatus) (l : RunUsageLedger)
    → Change l (finish_locked id status l).1
unfolding finish_locked
finish_locked-Change id status l = elim (Option-cases (lookup id l.attempts)) [
  | inl e ↦ kept (ground arith) (ground arith) (ground arith)
  | inr (a, e) ↦ elim (Bool-cases (is_terminal a)) [
    | inl over ↦ kept (ground arith) (ground arith) (ground arith)
    | inr still ↦
        rw (finish_open id l e still status) (persist_pending_finish-Change id a l e still)
  ]
]

settle_one-Change :
    (id : String) (a : Attempt) (l : RunUsageLedger)
    → lookup id l.attempts ≡ some a
    → Change l (settle_one id a l).1
unfolding settle_one
settle_one-Change id a l e = elim (Bool-cases (is_terminal a)) [
  | inl over ↦ kept (ground arith) (ground arith) (ground arith)
  | inr still ↦ elim (Bool-cases (is_some a.pending_finish)) [
    | inl p ↦ rw (still, p) (persist_pending_finish-Change id a l e still)
    | inr p ↦ rw (still, p) (write_usage-Change id a l e still)
  ]
]

pub settle_at-Change : (id : String) (l : RunUsageLedger) → Change l (settle_at id l).1
unfolding settle_at
settle_at-Change id l = elim (Option-cases (lookup id l.attempts)) [
  | inl e ↦ kept (ground arith) (ground arith) (ground arith)
  | inr (a, e) ↦ rw (e, settle_at) (settle_one-Change id a l e)
]

pub bind_persistence-Change : (w : Writers) (l : RunUsageLedger) → Change l (bind_persistence w l).1
unfolding bind_persistence
bind_persistence-Change w l = kept (ground arith) (ground arith) (ground arith)

pub record_first_visible-Change :
    (now : ℕ) (l : RunUsageLedger) → Change l (record_first_visible now l)
unfolding record_first_visible
record_first_visible-Change now l = kept (ground arith) (ground arith) (ground arith)
