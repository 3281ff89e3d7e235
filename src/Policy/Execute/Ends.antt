-- ===== src/Policy/Execute/Ends.antt =====
-- The end of a Tool call, with all of its events (backend/src/work_assistant/execution_policy.py).
use Prim.Native.String.{◌++◌ as glue}
use work_assistant_agent.Prelude.{
  ℕ, ◌+◌, ◌≡◌, refl, true, false, String, some, List, [], ◌∷◌, arith, ok, contains, is_unique, All,
  eq_iff, Result-cases, inl, inr, sym, ◌∙◌, ap, add, contains-add, subst,
}
use work_assistant_agent.Prelude.Dict.{lookup, insert, has_key, lookup-insert}
use work_assistant_agent.Capabilities.Values.{same_fields, get_text}
use work_assistant_agent.Capabilities.Tools.{
  ToolSource, ToolMessage, source_ids, RegisteredTool, ParsedToolOutcome, valid_outcome,
}
use work_assistant_agent.Capabilities.Registry.{parse_tool_message, require}
use work_assistant_agent.Policy.State.{RunConfig, RunExecution, ProductEvent, record_progress}
use work_assistant_agent.Policy.Calls.{
  add_sources, finished_data, close_call, finish_admitted, finish_tool_call,
}
use work_assistant_agent.Policy.Events.{
  accept_runtime_event, validate_runtime_event, validate_finished, confirm,
}
use work_assistant_agent.Policy.Invariant.{book, IsValid}
use work_assistant_agent.Policy.Execute.{emit_each}
use work_assistant_agent.Policy.Execute.Emits.{IsFresh, emit_fresh, Kept, add_sources-Kept}
use work_assistant_agent.Policy.Execute.Sources.{AreNew, add_sources-AreNew}

finished_data-same :
    (id tool_id : String) (tool : RegisteredTool) (o : ParsedToolOutcome)
    → same_fields (finished_data id tool_id tool o) (finished_data id tool_id tool o) ≡ true
unfolding finished_data same_fields lookup
finished_data-same id tool_id tool o = ground (
  arith,
  eq_iff id id,
  eq_iff tool_id tool_id,
  eq_iff tool.label tool.label,
  eq_iff o.output_summary o.output_summary,
)

-- The state after the confirmation of an end.
abbrev after_end : String → RunExecution → RunExecution
after_end id t = record t { persisted_finished = add id t.persisted_finished }

module _ (id tool_id : String) (tool : RegisteredTool) (o : ParsedToolOutcome)
    (t : RunExecution) where
  valid_end :
      lookup id t.finished_calls ≡ some (tool_id, finished_data id tool_id tool o)
      → contains id t.persisted_started ≡ true
      → contains id t.persisted_finished ≡ false
      → validate_runtime_event
          (record { type = "tool.finished"; payload = finished_data id tool_id tool o })
          t
        ≡ ok tt
  unfolding validate_runtime_event validate_finished get_text lookup
  valid_end there begun still =
      let named_id : get_text "tool_call_id" (finished_data id tool_id tool o) ≡ some id =
        unfold finished_data in refl in
      ground (arith, named_id, there, begun, still, finished_data-same id tool_id tool o)

  accept_end :
      (now : ℕ)
      → lookup id t.finished_calls ≡ some (tool_id, finished_data id tool_id tool o)
      → contains id t.persisted_started ≡ true
      → contains id t.persisted_finished ≡ false
      → accept_runtime_event now
          (record { type = "tool.finished"; payload = finished_data id tool_id tool o })
          t
        ≡ (ok tt, after_end id t)
  unfolding accept_runtime_event confirm
  accept_end now there begun still =
      let named_id : get_text "tool_call_id" (finished_data id tool_id tool o) ≡ some id =
        unfold get_text finished_data lookup in refl in
      ground (arith, valid_end there begun still, named_id)

IsFresh-after_end :
    (call id : String) (t : RunExecution) (sources : List ToolSource)
    → All (IsFresh call t) sources
    → All (IsFresh call (after_end id t)) sources
IsFresh-after_end call id t [] f = f
IsFresh-after_end call id t (source ∷ sources) (here, f) = (
  record { entry = here.entry; unconfirmed = here.unconfirmed },
  IsFresh-after_end call id t sources f,
)

record_progress-Kept : (f : String) (s : RunExecution) → Kept s (record_progress f s)
unfolding record_progress
record_progress-Kept f s = record {
  same_sources = ground arith;
  same_finished = ground arith;
  same_started = ground arith;
  same_calls = ground arith;
}

record_progress-source_events :
    (f : String) (s : RunExecution) → (record_progress f s).source_events ≡ s.source_events
unfolding record_progress
record_progress-source_events f s = ground arith

-- The state in which `finish_tool_call` adds the sources of the call.
abbrev closing : String → String → ParsedToolOutcome → RegisteredTool → RunExecution → RunExecution
closing id tool_id o tool s = record s {
  finished_calls = insert id (tool_id, finished_data id tool_id tool o) s.finished_calls;
  tool_calls_succeeded = s.tool_calls_succeeded + 1;
}

module _ (c : RunConfig) (now : ℕ) (id tool_id : String) (o : ParsedToolOutcome)
    (tool : RegisteredTool) (s : RunExecution) (begun : contains id s.persisted_started ≡ true)
    (still : contains id s.persisted_finished ≡ false)
    (produced : (k : String)
      → contains k s.persisted_sources ≡ true
      → has_key k s.source_events ≡ true)
    (unique : is_unique (source_ids o.sources) ≡ true) where
  abbrev ready : RunExecution
  ready = record_progress (glue "tool-fact:" o.fact_fingerprint) (closing id tool_id o tool s)

  abbrev ended : RunExecution
  ended = (add_sources id o.sources ready).1

  ready-Kept : Kept (closing id tool_id o tool s) ended
  ready-Kept =
      let one =
        record_progress-Kept (glue "tool-fact:" o.fact_fingerprint) (closing id tool_id o tool s) in
      let rest = add_sources-Kept id o.sources ready in
      record {
        same_sources = rest.same_sources ∙ one.same_sources;
        same_finished = rest.same_finished ∙ one.same_finished;
        same_started = rest.same_started ∙ one.same_started;
        same_calls = rest.same_calls ∙ one.same_calls;
      }

  ready-AreNew : AreNew id o.sources (add_sources id o.sources ready).0 ended
  ready-AreNew =
      let one =
        record_progress-Kept (glue "tool-fact:" o.fact_fingerprint) (closing id tool_id o tool s) in
      let events =
        record_progress-source_events (glue "tool-fact:" o.fact_fingerprint)
          (closing id tool_id o tool s) in
      add_sources-AreNew id o.sources ready unique
        (λ k m. rw events (produced k (ap (λ xs. contains k xs) (sym one.same_sources) ∙ m)))

  ended_there : lookup id ended.finished_calls ≡ some (tool_id, finished_data id tool_id tool o)
  ended_there = rw ready-Kept.same_calls (
      ground (
        arith,
        lookup-insert id id (tool_id, finished_data id tool_id tool o) s.finished_calls,
        eq_iff id id,
      ))

  close_call-emits :
      (emit_each
        (accept_runtime_event now)
        (close_call c id tool_id o tool s).0
        (close_call c id tool_id o tool s).1).0
      ≡ ok tt
  unfolding close_call emit_each
  close_call-emits =
      let new = ready-AreNew in
      let first =
        accept_end id tool_id tool o ended now ended_there (rw ready-Kept.same_started begun)
          (rw ready-Kept.same_finished still) in
      let confirmed : contains id (after_end id ended).persisted_finished ≡ true =
        ground (arith, contains-add id id ended.persisted_finished, eq_iff id id) in
      rw (first, new.announced)
        (emit_fresh id now new.fresh (after_end id ended)
          (IsFresh-after_end id id ended new.fresh new.each) new.once confirmed)

outcome_unique :
    (o : ParsedToolOutcome) → valid_outcome o ≡ true → is_unique (source_ids o.sources) ≡ true
unfolding valid_outcome
outcome_unique o h = ground arith

parsed_unique :
    (c : RunConfig) (tool_id : String) (message : ToolMessage) (o : ParsedToolOutcome)
    → parse_tool_message c.tool_registry tool_id message ≡ ok o
    → is_unique (source_ids o.sources) ≡ true
unfolding parse_tool_message
parsed_unique c tool_id message o h = outcome_unique o (ground arith)

-- What a finish that returned has done.
record IsClosed (c : RunConfig) (id tool_id : String) (message : ToolMessage) (s : RunExecution)
    (events : List ProductEvent) (t : RunExecution) : Type 0 where
  outcome : ParsedToolOutcome
  tool : RegisteredTool
  parsed : parse_tool_message c.tool_registry tool_id message ≡ ok outcome
  unfinished : has_key id s.finished_calls ≡ false
  written :
      ◌≡◌ {A = List ProductEvent × RunExecution}
        (close_call c id tool_id outcome tool s)
        (events, t)

finish_admitted-IsClosed :
    (c : RunConfig) (id tool_id : String) (message : ToolMessage) (s : RunExecution)
    {events : List ProductEvent} {t : RunExecution}
    → finish_admitted c id tool_id message s ≡ (ok events, t)
    → IsClosed c id tool_id message s events t
unfolding finish_admitted
finish_admitted-IsClosed c id tool_id message s h =
    elim (Result-cases (parse_tool_message c.tool_registry tool_id message)) [
      | inl (e, bad) ↦ absurd (ground arith)
      | inr (o, parsed) ↦ elim (Result-cases (require c.tool_registry tool_id)) [
        | inl (e, missing) ↦ absurd (ground arith)
        | inr (tool, found) ↦ record {
          outcome = o;
          tool = tool;
          parsed = parsed;
          unfinished = ground arith;
          written = ground arith;
        }
      ]
    ]

-- Every event that a finished Tool call hands out is one that `accept_runtime_event` takes, in their
-- order and at any time, where the books were valid and the start of the call was confirmed.
pub finish_tool_call-emits :
    (c : RunConfig) (now later : ℕ) (id tool_id : String) (message : ToolMessage) (s : RunExecution)
    (budget : ℕ) {events : List ProductEvent} {t : RunExecution}
    → IsValid budget (book s)
    → contains id s.persisted_started ≡ true
    → finish_tool_call c now id tool_id message s ≡ (ok events, t)
    → (emit_each (accept_runtime_event later) events t).0 ≡ ok tt
unfolding finish_tool_call
finish_tool_call-emits c now later id tool_id message s budget {events} {t} v begun h =
    let w : IsClosed c id tool_id message s events t =
      finish_admitted-IsClosed c id tool_id message s (ground arith) in
    let still : contains id s.persisted_finished ≡ false =
      ground (arith, w.unfinished, v.confirmed_finished id) in
    let emitted =
      close_call-emits c later id tool_id w.outcome w.tool s begun still
        (λ k m. v.confirmed_source k m) (parsed_unique c tool_id message w.outcome w.parsed) in
    subst
      (λ (r : List ProductEvent × RunExecution).
        (emit_each (accept_runtime_event later) r.0 r.1).0 ≡ ok tt)
      w.written emitted
