-- ===== src/Policy/Invariant.antt =====
-- The invariant of `RunExecution`, stated on the part of its ledger that holds calls and sources.
pub mod Reserving
pub mod Counting
pub mod Calling
pub mod Confirming
pub mod Citing
use work_assistant_agent.Prelude.{
  ℕ, ◌≤◌, ◌≡◌, refl, Bool, true, false, String, Option, none, some, List, [], ◌∷◌, arith, contains,
  length, is_unique, is_subset,
}
use work_assistant_agent.Prelude.Dict.{Dict, lookup, has_key, keys}
use work_assistant_agent.Capabilities.Values.{Fields}
use work_assistant_agent.Capabilities.Tools.{sized}
use work_assistant_agent.Policy.State.{
  RunConfig, RunExecution, ToolReservation, Call, new_execution,
}

pub record Book : Type 0 where
  pub tool_calls_attempted : ℕ
  pub reservations : Dict ToolReservation
  pub started_calls : Dict Call
  pub finished_calls : Dict Call
  pub tool_calls_succeeded : ℕ
  pub source_events : Dict (List String × Fields)
  pub persisted_started : List String
  pub persisted_finished : List String
  pub persisted_sources : List String
  pub persisted_source_order : List String

abbrev pub book : RunExecution → Book
book s = record {
  tool_calls_attempted = s.tool_calls_attempted;
  reservations = s.reservations;
  started_calls = s.started_calls;
  finished_calls = s.finished_calls;
  tool_calls_succeeded = s.tool_calls_succeeded;
  source_events = s.source_events;
  persisted_started = s.persisted_started;
  persisted_finished = s.persisted_finished;
  persisted_sources = s.persisted_sources;
  persisted_source_order = s.persisted_source_order;
}

-- Calls are reserved within the budget, started only if reserved, finished only if started, and
-- confirmed as durable in that order; sources are confirmed once, and the list of the confirmed
-- ones has no repetition.
pub record IsValid (budget : ℕ) (b : Book) : Type 0 where
  pub attempted : length b.reservations ≤ b.tool_calls_attempted
  pub reserved : length b.reservations ≤ budget
  pub started_reserved :
      (k : String) → has_key k b.started_calls ≡ true → has_key k b.reservations ≡ true
  pub started_once : is_unique (keys b.started_calls) ≡ true
  pub finished_started :
      (k : String) → has_key k b.finished_calls ≡ true → has_key k b.started_calls ≡ true
  pub succeeded : b.tool_calls_succeeded ≡ length b.finished_calls
  pub confirmed_started :
      (k : String) → contains k b.persisted_started ≡ true → has_key k b.started_calls ≡ true
  pub confirmed_in_order :
      (k : String) → contains k b.persisted_finished ≡ true → contains k b.persisted_started ≡ true
  pub confirmed_finished :
      (k : String) → contains k b.persisted_finished ≡ true → has_key k b.finished_calls ≡ true
  pub confirmed_source :
      (k : String) → contains k b.persisted_sources ≡ true → has_key k b.source_events ≡ true
  pub sized_source : (k : String) → has_key k b.source_events ≡ true → sized 128 k ≡ true
  pub ordered : (k : String) → contains k b.persisted_source_order ≡ contains k b.persisted_sources
  pub ordered_once : is_unique b.persisted_source_order ≡ true

pub new_execution-IsValid :
    (c : RunConfig) (now later : ℕ)
    → IsValid c.agent.budget.max_tool_calls (book (new_execution c now later))
unfolding new_execution lookup
new_execution-IsValid c now later = record {
  attempted = omega arith;
  reserved = omega arith;
  started_reserved = λ k h. cc;
  started_once = refl;
  finished_started = λ k h. cc;
  succeeded = refl;
  confirmed_started = λ k h. cc;
  confirmed_in_order = λ k h. cc;
  confirmed_finished = λ k h. cc;
  confirmed_source = λ k h. cc;
  sized_source = λ k h. cc;
  ordered = λ k. refl;
  ordered_once = refl;
}
