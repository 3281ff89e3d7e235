-- ===== src/Policy/Metering.antt =====
-- The methods of `RunExecution` that hand on to its usage ledger
-- (backend/src/work_assistant/execution_policy.py).
use work_assistant_agent.Prelude.{ℕ, String, Option, Result, ok, err, Exec, ◌>>◌}
use work_assistant_agent.Usage.Metric.{UsageFault}
use work_assistant_agent.Usage.Run.{ProviderTokenUsage, RunErrorCategory, RunUsage}
use work_assistant_agent.Usage.Ledger.{Ledger, begin_attempt, bind_persistence, observe_usage}
use work_assistant_agent.Usage.Ledger.Types.{FinishStatus, LedgerError, ModelCallKind, Writers}
use work_assistant_agent.Usage.Ledger.Finish.{finish_attempt, settle_for_terminal}
use work_assistant_agent.Usage.Snapshot.{snapshot}
use work_assistant_agent.Policy.Violation.{PolicyViolation}
use work_assistant_agent.Policy.State.{Policy, RunExecution, ensure_deadline}

pub data MeteringError : Type 0 where
  violation : PolicyViolation → MeteringError
  metering : LedgerError → MeteringError

module _ {A : Type 0} where
  -- A method of the ledger, on the ledger that the execution holds.
  abbrev pub on_ledger : Ledger A → Exec MeteringError RunExecution A
  on_ledger m s =
      let (r, l) = m s.provider_usage in
      (elim r [ ok a ↦ ok a | err e ↦ err (metering e) ], record s { provider_usage = l })

  abbrev pub under_policy : Policy A → Exec MeteringError RunExecution A
  under_policy m s = let (r, t) = m s in (elim r [ ok a ↦ ok a | err v ↦ err (violation v) ], t)

unfoldable pub bind_usage_persistence : Writers → Exec MeteringError RunExecution (Unit {0})
bind_usage_persistence w = on_ledger (bind_persistence w)

unfoldable pub begin_provider_attempt :
    ℕ → ℕ → String → ModelCallKind → Option String → Exec MeteringError RunExecution String
begin_provider_attempt now later uuid kind retry_of =
    under_policy (ensure_deadline now) >> on_ledger (begin_attempt later uuid kind retry_of)

unfoldable pub observe_provider_usage :
    String → ProviderTokenUsage → Exec MeteringError RunExecution (Unit {0})
observe_provider_usage id usage = on_ledger (observe_usage id usage)

unfoldable pub finish_provider_attempt :
    ℕ → String → FinishStatus → Exec MeteringError RunExecution (Unit {0})
finish_provider_attempt now id status = on_ledger (finish_attempt now id status)

unfoldable pub settle_provider_usage_for_terminal : Exec MeteringError RunExecution (Unit {0})
settle_provider_usage_for_terminal = on_ledger settle_for_terminal

unfoldable pub run_usage : ℕ → Option RunErrorCategory → RunExecution → Result UsageFault RunUsage
run_usage now category s = snapshot now category s.provider_usage
