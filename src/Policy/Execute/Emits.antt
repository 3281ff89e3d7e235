-- ===== src/Policy/Execute/Emits.antt =====
-- The events of a finished Tool call are ones that `accept_runtime_event` takes, in their order
-- (backend/src/work_assistant/execution_policy.py).
use work_assistant_agent.Prelude.{
  ℕ, ◌≡◌, refl, true, false, String, none, some, List, [], ◌∷◌, ◌++◌, arith, ok, contains, add,
  contains-add, is_unique, All, map, str_eq, eq_iff, ◌∙◌,
}
use work_assistant_agent.Prelude.Dict.{lookup, has_key, lookup-insert}
use work_assistant_agent.Capabilities.Values.{Fields, same_fields, get_text}
use work_assistant_agent.Capabilities.Tools.{ToolSource, source_ids}
use work_assistant_agent.Policy.State.{RunExecution, ProductEvent, record_progress}
use work_assistant_agent.Policy.Calls.{add_source, add_sources, source_data}
use work_assistant_agent.Policy.Events.{
  accept_runtime_event, validate_runtime_event, validate_source, confirm,
}
use work_assistant_agent.Policy.Execute.{emit_each}

abbrev pub added : ToolSource → ProductEvent
added source = record { type = "source.added"; payload = source_data source }

source_data-same :
    (source : ToolSource) → same_fields (source_data source) (source_data source) ≡ true
unfolding source_data same_fields lookup
source_data-same source = ground (
  arith,
  eq_iff source.source_id source.source_id,
  eq_iff source.label source.label,
  eq_iff source.description source.description,
)

-- A source that was added by the call and is not confirmed.
pub record IsFresh (call : String) (s : RunExecution) (source : ToolSource) : Type 0 where
  pub entry : lookup source.source_id s.source_events ≡ some (call ∷ [], source_data source)
  pub unconfirmed : contains source.source_id s.persisted_sources ≡ false

valid_added :
    (call : String) (source : ToolSource) (s : RunExecution)
    → IsFresh call s source
    → contains call s.persisted_finished ≡ true
    → validate_runtime_event (added source) s ≡ ok tt
unfolding validate_runtime_event validate_source get_text lookup
valid_added call source s f done =
    let id : get_text "source_id" (source_data source) ≡ some source.source_id =
      unfold source_data in refl in
    ground (arith, id, f.entry, f.unconfirmed, done, source_data-same source)

accept_added :
    (call : String) (now : ℕ) (source : ToolSource) (s : RunExecution)
    → IsFresh call s source
    → contains call s.persisted_finished ≡ true
    → accept_runtime_event now (added source) s ≡ (
      ok tt,
      record s {
        persisted_sources = add source.source_id s.persisted_sources;
        persisted_source_order = s.persisted_source_order ++ source.source_id ∷ [];
      },
    )
unfolding accept_runtime_event confirm
accept_added call now source s f done =
    let id : get_text "source_id" (source_data source) ≡ some source.source_id =
      unfold get_text source_data lookup in refl in
    ground (arith, valid_added call source s f done, id)

IsFresh-confirmed :
    (call : String) (id : String) (s : RunExecution) (order : List String)
    (sources : List ToolSource)
    → contains id (source_ids sources) ≡ false
    → All (IsFresh call s) sources
    → All
        (IsFresh call (record s {
          persisted_sources = add id s.persisted_sources;
          persisted_source_order = order;
        }))
        sources
IsFresh-confirmed call id s order [] n f = f
IsFresh-confirmed call id s order (source ∷ sources) n (here, f) = (
  record {
    entry = here.entry;
    unconfirmed = ground (
      arith,
      contains-add source.source_id id s.persisted_sources,
      here.unconfirmed,
      eq_iff source.source_id id,
      eq_iff id source.source_id,
    );
  },
  IsFresh-confirmed call id s order sources (ground arith) f,
)

pub emit_fresh :
    (call : String) (now : ℕ) (sources : List ToolSource) (s : RunExecution)
    → All (IsFresh call s) sources
    → is_unique (source_ids sources) ≡ true
    → contains call s.persisted_finished ≡ true
    → (emit_each (accept_runtime_event now) (map added sources) s).0 ≡ ok tt
unfolding emit_each
emit_fresh call now [] s f u done = refl
emit_fresh call now (source ∷ sources) s (here, f) u done =
    rw (accept_added call now source s here done) (
      emit_fresh call now sources _
        (IsFresh-confirmed call source.source_id s _ sources (ground arith) f) (ground arith) done)

-- What the sources of a call leave alone.
pub record Kept (s t : RunExecution) : Type 0 where
  pub same_sources : t.persisted_sources ≡ s.persisted_sources
  pub same_finished : t.persisted_finished ≡ s.persisted_finished
  pub same_started : t.persisted_started ≡ s.persisted_started
  pub same_calls : t.finished_calls ≡ s.finished_calls

pub add_source-Kept :
    (call : String) (source : ToolSource) (s : RunExecution) → Kept s (add_source call source s).1
unfolding add_source record_progress
add_source-Kept call source s = record {
  same_sources = ground arith;
  same_finished = ground arith;
  same_started = ground arith;
  same_calls = ground arith;
}

pub add_sources-Kept :
    (call : String) (sources : List ToolSource) (s : RunExecution)
    → Kept s (add_sources call sources s).1
unfolding add_sources
add_sources-Kept call [] s = record {
  same_sources = refl;
  same_finished = refl;
  same_started = refl;
  same_calls = refl;
}
add_sources-Kept call (source ∷ sources) s =
    let one = add_source-Kept call source s in
    let rest = add_sources-Kept call sources (add_source call source s).1 in
    record {
      same_sources = rest.same_sources ∙ one.same_sources;
      same_finished = rest.same_finished ∙ one.same_finished;
      same_started = rest.same_started ∙ one.same_started;
      same_calls = rest.same_calls ∙ one.same_calls;
    }

add_source-other :
    (call k : String) (source : ToolSource) (s : RunExecution)
    → str_eq source.source_id k ≡ false
    → lookup k (add_source call source s).1.source_events ≡ lookup k s.source_events
unfolding add_source record_progress
add_source-other call k source s n = grind (arith, lookup-insert)

pub add_sources-other :
    (call k : String) (sources : List ToolSource) (s : RunExecution)
    → contains k (source_ids sources) ≡ false
    → lookup k (add_sources call sources s).1.source_events ≡ lookup k s.source_events
unfolding add_sources
add_sources-other call k [] s n = refl
add_sources-other call k (source ∷ sources) s n =
    add_sources-other call k sources (add_source call source s).1 (ground arith)
    ∙ add_source-other call k source s (ground arith)

pub add_source-new :
    (call : String) (source : ToolSource) (s : RunExecution)
    → lookup source.source_id s.source_events ≡ none
    → ((add_source call source s).0 ≡ added source ∷ [])
      × (lookup source.source_id (add_source call source s).1.source_events
          ≡ some (call ∷ [], source_data source))
unfolding add_source record_progress
add_source-new call source s new = (
  ground (arith, new),
  grind (arith, lookup-insert, eq_iff source.source_id source.source_id, new),
)

pub add_source-old :
    (call : String) (source : ToolSource) (s : RunExecution) (known : List String × Fields)
    → lookup source.source_id s.source_events ≡ some known
    → (add_source call source s).0 ≡ []
unfolding add_source
add_source-old call source s known old = ground (arith, old)

pub add_source-has_key :
    (call k : String) (source : ToolSource) (s : RunExecution)
    → has_key k s.source_events ≡ true
    → has_key k (add_source call source s).1.source_events ≡ true
unfolding add_source record_progress
add_source-has_key call k source s h = grind (arith, lookup-insert)
