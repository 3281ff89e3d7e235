-- ===== src/Usage/Ledger/Changes/Sequences.antt =====
-- Sequences of changes: loops and methods of several steps.
use work_assistant_agent.Prelude.{
  ℕ, Bool, true, false, String, List, [], ◌∷◌, Result, ok, err, pure, continue, if◌then◌else◌,
}
use work_assistant_agent.Prelude.Dict.{keys}
use work_assistant_agent.Usage.Ledger.{Ledger}
use work_assistant_agent.Usage.Ledger.Types.{RunUsageLedger, FinishStatus, LedgerError}
use work_assistant_agent.Usage.Ledger.Finish.{
  request_finish, finish_locked, settle_at, settle_each, settle_for_terminal, finish_attempt,
}
use work_assistant_agent.Usage.Ledger.Invariant.{IsValid, Change, Change-IsValid}
use work_assistant_agent.Usage.Ledger.Changes.{
  request_finish-Change, finish_locked-Change, settle_at-Change,
}

-- Several changes.
pub data Changes : RunUsageLedger → RunUsageLedger → Type 0 where
  none_yet : {l : RunUsageLedger} → Changes l l
  one_more : {l m n : RunUsageLedger} → Change l m → Changes m n → Changes l n

Changes-trans : {l m n : RunUsageLedger} → Changes l m → Changes m n → Changes l n
Changes-trans none_yet d = d
Changes-trans (one_more c cs) d = one_more c (Changes-trans cs d)

pub only : {l m : RunUsageLedger} → Change l m → Changes l m
only c = one_more c none_yet

-- One rule for `do` blocks: what follows an action runs only if the action returned.
pub bind-Changes :
    {A B : Type 0} {l : RunUsageLedger} (r : Result LedgerError A × RunUsageLedger)
    (f : A → Ledger B)
    → Changes l r.1
    → ((a : A) (m : RunUsageLedger) → Changes m (f a m).1)
    → Changes l (continue r.0 f r.1).1
bind-Changes (ok a, m) f c k = Changes-trans c (k a m)
bind-Changes (err _, m) f c k = c

pub settle_each-Changes : (ids : List String) (l : RunUsageLedger) → Changes l (settle_each ids l).1
unfolding settle_each
settle_each-Changes [] l = none_yet
settle_each-Changes (id ∷ ids) l =
    bind-Changes (settle_at id l) (λ _. settle_each ids) (only (settle_at-Change id l))
      (λ _. settle_each-Changes ids)

pub settle_for_terminal-Changes : (l : RunUsageLedger) → Changes l (settle_for_terminal l).1
unfolding settle_for_terminal
settle_for_terminal-Changes l = settle_each-Changes (keys l.attempts) l

lock_then : Bool → String → FinishStatus → Ledger (Unit {0})
lock_then locks id status = if locks then finish_locked id status else pure tt

lock_then-Changes :
    (locks : Bool) (id : String) (status : FinishStatus) (l : RunUsageLedger)
    → Changes l (lock_then locks id status l).1
unfolding lock_then
lock_then-Changes true id status l = only (finish_locked-Change id status l)
lock_then-Changes false id status l = none_yet

pub finish_attempt-Changes :
    (now : ℕ) (id : String) (status : FinishStatus) (l : RunUsageLedger)
    → Changes l (finish_attempt now id status l).1
unfolding finish_attempt lock_then
finish_attempt-Changes now id status l =
    bind-Changes (request_finish now id status l) (λ locks. lock_then locks id status)
      (only (request_finish-Change now id status l)) (λ locks. lock_then-Changes locks id status)

pub Changes-IsValid : {l m : RunUsageLedger} → Changes l m → IsValid l → IsValid m
Changes-IsValid none_yet v = v
Changes-IsValid (one_more c cs) v = Changes-IsValid cs (Change-IsValid c v)
