-- ===== src/Policy/Invariant/Confirming.antt =====
-- `accept_runtime_event` keeps the invariant: what is confirmed was produced, and in order.
use work_assistant_agent.Prelude.{
  ℕ, ◌≡◌, true, false, ◌&&◌, not, String, Option, none, some, [], ◌∷◌, ◌++◌, arith, str_eq, eq_iff,
  Bool-cases, Result-cases, inl, inr, contains, add, contains-add, contains-append, is_unique-snoc,
  ok, ◌∙◌,
}
use work_assistant_agent.Prelude.Dict.{has_key}
use work_assistant_agent.Capabilities.Values.{get_text, Fields}
use work_assistant_agent.Policy.State.{RunExecution, ProductEvent}
use work_assistant_agent.Policy.Events.{
  named, holds, is_expected, is_backed, add_named, append_named, validate_runtime_event, confirm,
  accept_runtime_event,
}
use work_assistant_agent.Policy.Invariant.{Book, book, IsValid}

module _ (budget : ℕ) (b : Book) (v : IsValid budget b) (id : String) where
  confirm_started :
      has_key id b.started_calls ≡ true
      → IsValid budget (record b { persisted_started = add id b.persisted_started })
  confirm_started h = record {
    attempted = v.attempted;
    reserved = v.reserved;
    started_reserved = v.started_reserved;
    started_once = v.started_once;
    finished_started = v.finished_started;
    succeeded = v.succeeded;
    confirmed_started = λ k p.
        ground (arith, contains-add k id b.persisted_started, eq_iff id k, v.confirmed_started k);
    confirmed_in_order =
        λ k p. ground (arith, contains-add k id b.persisted_started, v.confirmed_in_order k);
    confirmed_finished = v.confirmed_finished;
    confirmed_source = v.confirmed_source;
    sized_source = v.sized_source;
    ordered = v.ordered;
    ordered_once = v.ordered_once;
  }

  confirm_finished :
      has_key id b.finished_calls ≡ true
      → contains id b.persisted_started ≡ true
      → IsValid budget (record b { persisted_finished = add id b.persisted_finished })
  confirm_finished h started = record {
    attempted = v.attempted;
    reserved = v.reserved;
    started_reserved = v.started_reserved;
    started_once = v.started_once;
    finished_started = v.finished_started;
    succeeded = v.succeeded;
    confirmed_started = v.confirmed_started;
    confirmed_in_order = λ k p.
        ground (arith, contains-add k id b.persisted_finished, eq_iff id k, v.confirmed_in_order k);
    confirmed_finished = λ k p.
        ground (arith, contains-add k id b.persisted_finished, eq_iff id k, v.confirmed_finished k);
    confirmed_source = v.confirmed_source;
    sized_source = v.sized_source;
    ordered = v.ordered;
    ordered_once = v.ordered_once;
  }

  confirm_source :
      has_key id b.source_events ≡ true
      → contains id b.persisted_sources ≡ false
      → IsValid budget (record b {
        persisted_sources = add id b.persisted_sources;
        persisted_source_order = b.persisted_source_order ++ id ∷ [];
      })
  confirm_source h new = record {
    attempted = v.attempted;
    reserved = v.reserved;
    started_reserved = v.started_reserved;
    started_once = v.started_once;
    finished_started = v.finished_started;
    succeeded = v.succeeded;
    confirmed_started = v.confirmed_started;
    confirmed_in_order = v.confirmed_in_order;
    confirmed_finished = v.confirmed_finished;
    confirmed_source = λ k p.
        ground (arith, contains-add k id b.persisted_sources, eq_iff id k, v.confirmed_source k);
    sized_source = v.sized_source;
    ordered = λ k. ground (
      arith,
      contains-add k id b.persisted_sources,
      contains-append k b.persisted_source_order (id ∷ []),
      v.ordered k,
    );
    ordered_once = is_unique-snoc id b.persisted_source_order v.ordered_once (v.ordered id ∙ new);
  }

module _ (budget : ℕ) (d : Fields) (s : RunExecution) (v : IsValid budget (book s)) where
  started_named :
      (o : Option String)
      → (is_expected (named o s.started_calls) d && not (holds o s.persisted_started)) ≡ true
      → IsValid budget (record (book s) { persisted_started = add_named o s.persisted_started })
  started_named none h = cc
  started_named (some id) h = confirm_started budget (book s) v id (ground arith)

  finished_named :
      (o : Option String)
      → (is_expected (named o s.finished_calls) d
          && (holds o s.persisted_started && not (holds o s.persisted_finished)))
        ≡ true
      → IsValid budget (record (book s) { persisted_finished = add_named o s.persisted_finished })
  finished_named none h = cc
  finished_named (some id) h = confirm_finished budget (book s) v id (ground arith) (ground arith)

  source_named :
      (o : Option String)
      → (is_expected (named o s.source_events) d
          && (is_backed (named o s.source_events) s.persisted_finished
              && not (holds o s.persisted_sources)))
        ≡ true
      → IsValid budget (record (book s) {
        persisted_sources = add_named o s.persisted_sources;
        persisted_source_order = append_named o s.persisted_source_order;
      })
  source_named none h = cc
  source_named (some id) h = confirm_source budget (book s) v id (ground arith) (ground arith)

module _ (budget now : ℕ) (e : ProductEvent) (s : RunExecution) (v : IsValid budget (book s)) where
  confirm-IsValid : validate_runtime_event e s ≡ ok tt → IsValid budget (book (confirm now e s))
  unfolding validate_runtime_event confirm
  confirm-IsValid h = elim (Bool-cases (str_eq e.type "message.delta")) [
    | inl delta ↦ rw (delta, confirm) v
    | inr d ↦ elim (Bool-cases (str_eq e.type "tool.started")) [
      | inl start ↦
          rw (d, start, confirm)
            (started_named budget e.payload s v (get_text "tool_call_id" e.payload) (ground arith))
      | inr st ↦ elim (Bool-cases (str_eq e.type "tool.finished")) [
        | inl finish ↦
            rw (d, st, finish, confirm)
              (finished_named budget e.payload s v (get_text "tool_call_id" e.payload)
                (ground arith))
        | inr f ↦
            rw (d, st, f, confirm)
              (source_named budget e.payload s v (get_text "source_id" e.payload) (ground arith))
      ]
    ]
  ]

  pub accept_runtime_event-IsValid : IsValid budget (book (accept_runtime_event now e s).1)
  unfolding accept_runtime_event
  accept_runtime_event-IsValid = elim (Result-cases (validate_runtime_event e s)) [
    | inl (x, bad) ↦ rw (bad, accept_runtime_event) v
    | inr (t, good) ↦ rw (good, accept_runtime_event) (confirm-IsValid good)
  ]
