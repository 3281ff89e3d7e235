-- ===== src/Policy/Execute/Sources.antt =====
-- The sources that a Tool call brings, and their events
-- (backend/src/work_assistant/execution_policy.py).
use work_assistant_agent.Prelude.{
  ◌≡◌, refl, true, String, List, [], ◌∷◌, arith, contains, is_unique, All, map, Option-cases, inl,
  inr, sym, ◌∙◌, ap,
}
use work_assistant_agent.Prelude.Dict.{lookup, has_key}
use work_assistant_agent.Capabilities.Tools.{ToolSource, source_ids}
use work_assistant_agent.Policy.State.{RunExecution, ProductEvent}
use work_assistant_agent.Policy.Calls.{add_source, add_sources}
use work_assistant_agent.Policy.Execute.Emits.{
  added, IsFresh, add_source-Kept, add_sources-Kept, add_sources-other, add_source-new,
  add_source-old, add_source-has_key,
}

-- The new sources of a call: their events, and what stands for them afterwards.
pub record AreNew (call : String) (sources : List ToolSource) (events : List ProductEvent)
    (t : RunExecution) : Type 0 where
  pub fresh : List ToolSource
  pub announced : events ≡ map added fresh
  pub each : All (IsFresh call t) fresh
  pub once : is_unique (source_ids fresh) ≡ true
  pub among :
      (k : String) → contains k (source_ids fresh) ≡ true → contains k (source_ids sources) ≡ true

pub add_sources-AreNew :
    (call : String) (sources : List ToolSource) (s : RunExecution)
    → is_unique (source_ids sources) ≡ true
    → ((k : String) → contains k s.persisted_sources ≡ true → has_key k s.source_events ≡ true)
    → AreNew call sources (add_sources call sources s).0 (add_sources call sources s).1
unfolding add_sources
add_sources-AreNew call [] s u h = record {
  fresh = [];
  announced = refl;
  each = tt;
  once = refl;
  among = λ k m. m;
}
add_sources-AreNew call (source ∷ sources) s u h =
    let s' = (add_source call source s).1 in
    let one = add_source-Kept call source s in
    let t = (add_sources call sources s').1 in
    let rest = add_sources-AreNew call sources s' (ground arith) (λ k m.
      add_source-has_key call k source s
        (h k (ap (λ xs. contains k xs) (sym one.same_sources) ∙ m))) in
    elim (Option-cases (lookup source.source_id s.source_events)) [
      | inr (known, old) ↦ record {
        fresh = rest.fresh;
        announced = rw (add_source-old call source s known old) rest.announced;
        each = rest.each;
        once = rest.once;
        among = λ k m. ground (arith, rest.among k m);
      }
      | inl new ↦
          let (event, there) = add_source-new call source s new in
          let kept = add_sources-Kept call sources s' in
          record {
            fresh = source ∷ rest.fresh;
            announced = rw event (ap (λ es. added source ∷ es) rest.announced);
            each = (
              record {
                entry = add_sources-other call source.source_id sources s' (ground arith) ∙ there;
                unconfirmed =
                    rw (kept.same_sources ∙ one.same_sources)
                      (ground (arith, h source.source_id, new));
              },
              rest.each,
            );
            once = ground (arith, rest.once, rest.among source.source_id);
            among = λ k m. ground (arith, m, rest.among k);
          }
    ]
