-- ===== src/Policy/Invariant/Calling/Sources.antt =====
-- The sources that a finished call brings keep the invariant, if their ids have a fitting size.
use work_assistant_agent.Prelude.{
  ℕ, ◌≡◌, true, String, List, [], ◌∷◌, arith, str_eq, eq_iff, Bool-cases, Option-cases, inl, inr,
  all, subst,
}
use work_assistant_agent.Prelude.Dict.{lookup, insert, lookup-insert}
use work_assistant_agent.Capabilities.Values.{Fields}
use work_assistant_agent.Capabilities.Tools.{ToolSource, valid_source, sized}
use work_assistant_agent.Policy.State.{RunExecution}
use work_assistant_agent.Policy.Calls.{add_source, add_sources}
use work_assistant_agent.Policy.Invariant.{Book, book, IsValid}
use work_assistant_agent.Policy.Invariant.Counting.{book-record_progress}

sourced_IsValid :
    (budget : ℕ) (b : Book) (id : String) (entry : List String × Fields)
    → IsValid budget b
    → sized 128 id ≡ true
    → IsValid budget (record b { source_events = insert id entry b.source_events })
sourced_IsValid budget b id entry v fits = record {
  attempted = v.attempted;
  reserved = v.reserved;
  started_reserved = v.started_reserved;
  started_once = v.started_once;
  finished_started = v.finished_started;
  succeeded = v.succeeded;
  confirmed_started = v.confirmed_started;
  confirmed_in_order = v.confirmed_in_order;
  confirmed_finished = v.confirmed_finished;
  confirmed_source = λ k h.
      ground (arith, lookup-insert id k entry b.source_events, eq_iff id k, v.confirmed_source k);
  sized_source = λ k h. elim (Bool-cases (str_eq id k)) [
    | inl same ↦ subst (λ j. sized 128 j ≡ true) ((eq_iff id k).0 same) fits
    | inr other ↦ v.sized_source k (ground (arith, lookup-insert id k entry b.source_events))
  ];
  ordered = v.ordered;
  ordered_once = v.ordered_once;
}

module _ (budget : ℕ) (call : String) where
  add_source-IsValid :
      (source : ToolSource) (s : RunExecution)
      → IsValid budget (book s)
      → valid_source source ≡ true
      → IsValid budget (book (add_source call source s).1)
  unfolding add_source valid_source
  add_source-IsValid source s v fits =
      elim (Option-cases (lookup source.source_id s.source_events)) [
        | inl new ↦
            rw (new, add_source)
              (rw book-record_progress
                (sourced_IsValid budget (book s) source.source_id _ v (ground arith)))
        | inr (known, old) ↦
            rw (old, add_source)
              (sourced_IsValid budget (book s) source.source_id _ v (ground arith))
      ]

  pub add_sources-IsValid :
      (sources : List ToolSource) (s : RunExecution)
      → IsValid budget (book s)
      → all valid_source sources ≡ true
      → IsValid budget (book (add_sources call sources s).1)
  unfolding add_sources
  add_sources-IsValid [] s v fits = v
  add_sources-IsValid (source ∷ sources) s v fits =
      add_sources-IsValid sources (add_source call source s).1
        (add_source-IsValid source s v (ground arith)) (ground arith)
