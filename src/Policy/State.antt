-- ===== src/Policy/State.antt =====
-- `RunExecution` of backend/src/work_assistant/execution_policy.py: what a Run was admitted with,
-- and its ledger. The provider attempts are the ledger of backend/src/work_assistant/usage.py.
use work_assistant_agent.Prelude.{
  ℕ, ◌+◌, String, Option, none, List, [], ◌∷◌, Exec, ok, err, contains, leb, if◌then◌else◌,
}
use work_assistant_agent.Prelude.Dict.{Dict}
use work_assistant_agent.Agents.Definition.{AgentDefinition}
use work_assistant_agent.Capabilities.Values.{Fields}
use work_assistant_agent.Capabilities.Registry.{ToolRegistry, Fingerprint}
use work_assistant_agent.Capabilities.Decision.{
  Principal, CapabilityDecision, PrincipalCapabilityPolicy,
}
use work_assistant_agent.Usage.Ledger.{new_ledger}
use work_assistant_agent.Usage.Ledger.Types.{RunUsageLedger}
use work_assistant_agent.Policy.Violation.{PolicyViolation, deadline_exceeded}

-- The constructor's arguments. `sha256` and `fingerprint` stand for `hashlib.sha256`.
pub record RunConfig : Type 0 where
  pub principal : Principal
  pub agent : AgentDefinition
  pub capability_decision : CapabilityDecision
  pub visible_tool_ids : List String
  pub tool_registry : ToolRegistry
  pub capability_policy : PrincipalCapabilityPolicy
  pub sha256 : String → String
  pub fingerprint : Fingerprint

pub record ToolReservation : Type 0 where
  pub tool_call_id : String
  pub tool_id : String
  pub validated_arguments : Fields
  pub fingerprint : String

pub record ProductEvent : Type 0 where
  pub type : String
  pub payload : Fields

pub data ResultValidation : Type 0 where
  passed failed not_run : ResultValidation

-- A started or finished call: its Tool and the data of its event.
abbrev pub Call : Type 0
Call = String × Fields

pub record RunExecution : Type 0 where
  pub started_at : ℕ
  pub provider_usage : RunUsageLedger
  pub deadline_at : ℕ
  pub model_steps : ℕ
  pub tool_calls_attempted : ℕ
  pub tool_calls_succeeded : ℕ
  pub repeated_tool_calls : ℕ
  pub consecutive_no_progress : ℕ
  pub progress_revision : ℕ
  pub last_model_progress_revision : ℕ
  pub last_tool_fingerprint : Option String
  pub identical_tool_calls : ℕ
  pub seen_progress_fingerprints : List String
  pub reservations : Dict ToolReservation
  pub started_calls : Dict Call
  pub finished_calls : Dict Call
  pub source_events : Dict (List String × Fields)
  pub persisted_started : List String
  pub persisted_finished : List String
  pub persisted_sources : List String
  pub persisted_source_order : List String
  pub accepted_sources : Dict (List String)
  pub result_validation : ResultValidation
  pub result_source_ids : List String

abbrev pub Policy : Type 0 → Type 0
Policy A = Exec PolicyViolation RunExecution A

-- `RunExecution.__init__`: the clock is read once for the start and once by the usage ledger.
unfoldable pub new_execution : RunConfig → ℕ → ℕ → RunExecution
unfolding new_ledger
new_execution c now later = record {
  started_at = now;
  provider_usage = new_ledger later;
  deadline_at = now + c.agent.budget.deadline;
  model_steps = 0;
  tool_calls_attempted = 0;
  tool_calls_succeeded = 0;
  repeated_tool_calls = 0;
  consecutive_no_progress = 0;
  progress_revision = 0;
  last_model_progress_revision = 0;
  last_tool_fingerprint = none;
  identical_tool_calls = 0;
  seen_progress_fingerprints = [];
  reservations = [];
  started_calls = [];
  finished_calls = [];
  source_events = [];
  persisted_started = [];
  persisted_finished = [];
  persisted_sources = [];
  persisted_source_order = [];
  accepted_sources = [];
  result_validation = not_run;
  result_source_ids = [];
}

-- `ensure_deadline`
unfoldable pub ensure_deadline : ℕ → Policy (Unit {0})
ensure_deadline now s = if leb s.deadline_at now then (err deadline_exceeded, s) else (ok tt, s)

-- `_record_progress`
unfoldable pub record_progress : String → RunExecution → RunExecution
record_progress fingerprint s =
    if contains fingerprint s.seen_progress_fingerprints then s else record s {
      seen_progress_fingerprints = fingerprint ∷ s.seen_progress_fingerprints;
      progress_revision = s.progress_revision + 1;
    }
