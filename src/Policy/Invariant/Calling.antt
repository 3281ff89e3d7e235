-- ===== src/Policy/Invariant/Calling.antt =====
-- `begin_tool_call` and `finish_tool_call` keep the invariant.
pub mod Sources
use work_assistant_agent.Prelude.{
  ℕ, suc, ◌+◌, ◌≤◌, ◌≡◌, refl, Bool, true, false, ◌||◌, ◌&&◌, not, String, Option, none, some, List,
  [], ◌∷◌, arith, str_eq, eq_iff, Result, ok, err, Bool-cases, Option-cases, Result-cases, inl, inr,
  contains, is_unique, is_unique-snoc, all, length, leb, if◌then◌else◌, ap, ◌∙◌,
}
use work_assistant_agent.Prelude.Dict.{
  Dict, lookup, insert, has_key, keys, lookup-insert, keys-insert_new, contains-keys,
  length-insert_new,
}
use work_assistant_agent.Capabilities.Values.{Fields, same_fields}
use work_assistant_agent.Policy.Invariant.Counting.{book-record_progress}
use Sources.{add_sources-IsValid}
use work_assistant_agent.Capabilities.Tools.{
  valid_source, valid_outcome, ToolMessage, ParsedToolOutcome, RegisteredTool,
}
use work_assistant_agent.Capabilities.Registry.{require, canonicalize_call, parse_tool_message}
use work_assistant_agent.Policy.State.{
  RunConfig, RunExecution, Call, ToolReservation, ensure_deadline,
}
use work_assistant_agent.Policy.Calls.{
  is_permitted, usable, open_call, begin_admitted, begin_tool_call, started_data, is_closing,
  close_call, finish_admitted, finish_tool_call, conflicts,
}
use work_assistant_agent.Policy.Invariant.{Book, book, IsValid}

-- A started call: reserved, and not started before.
started_IsValid :
    (budget : ℕ) (b : Book) (id : String) (call : Call)
    → IsValid budget b
    → has_key id b.reservations ≡ true
    → has_key id b.started_calls ≡ false
    → IsValid budget (record b { started_calls = insert id call b.started_calls })
started_IsValid budget b id call v reserved new = record {
  attempted = v.attempted;
  reserved = v.reserved;
  started_reserved = λ k h.
      ground (arith, lookup-insert id k call b.started_calls, eq_iff id k, v.started_reserved k);
  started_once = rw (keys-insert_new id call b.started_calls new) (
      is_unique-snoc id (keys b.started_calls) v.started_once
        (contains-keys id b.started_calls ∙ new));
  finished_started = λ k h.
      ground (arith, lookup-insert id k call b.started_calls, eq_iff id k, v.finished_started k);
  succeeded = v.succeeded;
  confirmed_started = λ k h.
      ground (arith, lookup-insert id k call b.started_calls, eq_iff id k, v.confirmed_started k);
  confirmed_in_order = v.confirmed_in_order;
  confirmed_finished = v.confirmed_finished;
  confirmed_source = v.confirmed_source;
  sized_source = v.sized_source;
  ordered = v.ordered;
  ordered_once = v.ordered_once;
}

module _ (c : RunConfig) (id tool_id : String) (s : RunExecution)
    (v : IsValid c.agent.budget.max_tool_calls (book s)) where
  open_call-IsValid :
      (validated : Fields) (fingerprint : String) (r : ToolReservation)
      → has_key id s.reservations ≡ true
      → has_key id s.started_calls ≡ false
      → IsValid c.agent.budget.max_tool_calls
          (book (open_call c id tool_id validated fingerprint r s).1)
  unfolding open_call
  open_call-IsValid validated fingerprint r reserved new =
      elim (Bool-cases (
        not (str_eq fingerprint r.fingerprint)
        || not (same_fields validated r.validated_arguments))) [
          | inl other ↦ rw (other, open_call) v
          | inr same ↦ elim (Bool-cases (is_permitted c tool_id)) [
            | inr denied ↦ rw (same, denied, open_call) v
            | inl permitted ↦ elim (Result-cases (require c.tool_registry tool_id)) [
              | inl (e, missing) ↦ rw (same, permitted, missing, open_call) v
              | inr (tool, found) ↦
                  rw (same, permitted, found, open_call)
                    (started_IsValid _ (book s) id (tool_id, started_data id tool_id tool validated)
                      v reserved new)
            ]
          ]
        ]

  usable_reserved :
      (r : ToolReservation)
      → usable id tool_id s ≡ some r
      → (has_key id s.reservations ≡ true) × (has_key id s.started_calls ≡ false)
  usable_reserved r h = (ground arith, ground arith)

  begin_admitted-IsValid :
      (arguments : Fields)
      → IsValid c.agent.budget.max_tool_calls (book (begin_admitted c id tool_id arguments s).1)
  unfolding begin_admitted
  begin_admitted-IsValid arguments = elim (Option-cases (usable id tool_id s)) [
    | inl none_such ↦ rw (none_such, begin_admitted) v
    | inr (r, e) ↦
        elim (Result-cases (canonicalize_call c.fingerprint c.tool_registry tool_id arguments)) [
          | inl (x, bad) ↦ rw (e, bad, begin_admitted) v
          | inr ((validated, fingerprint), good) ↦
              let (reserved, new) = usable_reserved r e in
              rw (e, good, begin_admitted) (open_call-IsValid validated fingerprint r reserved new)
        ]
  ]

  pub begin_tool_call-IsValid :
      (now : ℕ) (arguments : Fields)
      → IsValid c.agent.budget.max_tool_calls
          (book (begin_tool_call c now id tool_id arguments s).1)
  unfolding begin_tool_call
  begin_tool_call-IsValid now arguments = elim (Bool-cases (leb s.deadline_at now)) [
    | inl late ↦ rw (late, begin_tool_call) v
    | inr early ↦ rw (early, begin_tool_call) (begin_admitted-IsValid arguments)
  ]

-- A finished call: started, and not finished before.
finished_IsValid :
    (budget : ℕ) (b : Book) (id : String) (call : Call)
    → IsValid budget b
    → has_key id b.started_calls ≡ true
    → has_key id b.finished_calls ≡ false
    → IsValid budget (record b {
      finished_calls = insert id call b.finished_calls;
      tool_calls_succeeded = b.tool_calls_succeeded + 1;
    })
finished_IsValid budget b id call v started new = record {
  attempted = v.attempted;
  reserved = v.reserved;
  started_reserved = v.started_reserved;
  started_once = v.started_once;
  finished_started = λ k h.
      ground (arith, lookup-insert id k call b.finished_calls, eq_iff id k, v.finished_started k);
  succeeded = omega (arith, v.succeeded, length-insert_new id call b.finished_calls new);
  confirmed_started = v.confirmed_started;
  confirmed_in_order = v.confirmed_in_order;
  confirmed_finished = λ k h.
      ground (arith, lookup-insert id k call b.finished_calls, eq_iff id k, v.confirmed_finished k);
  confirmed_source = v.confirmed_source;
  sized_source = v.sized_source;
  ordered = v.ordered;
  ordered_once = v.ordered_once;
}

parsed_valid_outcome :
    (c : RunConfig) (tool_id : String) (message : ToolMessage) (outcome : ParsedToolOutcome)
    → parse_tool_message c.tool_registry tool_id message ≡ ok outcome
    → valid_outcome outcome ≡ true
unfolding parse_tool_message
parsed_valid_outcome c tool_id message outcome h = ground arith

sources_valid :
    (outcome : ParsedToolOutcome)
    → valid_outcome outcome ≡ true
    → all valid_source outcome.sources ≡ true
unfolding valid_outcome
sources_valid outcome h = ground arith

parsed_valid :
    (c : RunConfig) (tool_id : String) (message : ToolMessage) (outcome : ParsedToolOutcome)
    → parse_tool_message c.tool_registry tool_id message ≡ ok outcome
    → all valid_source outcome.sources ≡ true
parsed_valid c tool_id message outcome h =
    sources_valid outcome (parsed_valid_outcome c tool_id message outcome h)

module _ (c : RunConfig) (id tool_id : String) (s : RunExecution)
    (v : IsValid c.agent.budget.max_tool_calls (book s)) where
  close_call-IsValid :
      (outcome : ParsedToolOutcome) (tool : RegisteredTool)
      → has_key id s.started_calls ≡ true
      → has_key id s.finished_calls ≡ false
      → all valid_source outcome.sources ≡ true
      → IsValid c.agent.budget.max_tool_calls (book (close_call c id tool_id outcome tool s).1)
  unfolding close_call
  close_call-IsValid outcome tool started new fits =
      add_sources-IsValid c.agent.budget.max_tool_calls id outcome.sources _
        (rw book-record_progress (finished_IsValid _ (book s) id _ v started new)) fits

  finish_admitted-IsValid :
      (message : ToolMessage)
      → IsValid c.agent.budget.max_tool_calls (book (finish_admitted c id tool_id message s).1)
  unfolding finish_admitted
  finish_admitted-IsValid message = elim (Bool-cases (is_closing id tool_id message s)) [
    | inr no_call ↦ rw (no_call, finish_admitted) v
    | inl closing ↦ elim (Result-cases (parse_tool_message c.tool_registry tool_id message)) [
      | inl (e, bad) ↦ rw (closing, bad, finish_admitted) v
      | inr (outcome, parsed) ↦ elim (Result-cases (require c.tool_registry tool_id)) [
        | inl (e, missing) ↦ rw (closing, parsed, missing, finish_admitted) v
        | inr (tool, found) ↦ elim (Bool-cases (conflicts s.source_events outcome.sources)) [
          | inl conflict ↦ rw (closing, parsed, found, conflict, finish_admitted) v
          | inr clear ↦
              rw (closing, parsed, found, clear, finish_admitted)
                (close_call-IsValid outcome tool (ground arith) (ground arith)
                  (parsed_valid c tool_id message outcome parsed))
        ]
      ]
    ]
  ]

  pub finish_tool_call-IsValid :
      (now : ℕ) (message : ToolMessage)
      → IsValid c.agent.budget.max_tool_calls (book (finish_tool_call c now id tool_id message s).1)
  unfolding finish_tool_call
  finish_tool_call-IsValid now message = elim (Bool-cases (leb s.deadline_at now)) [
    | inl late ↦ rw (late, finish_tool_call) v
    | inr early ↦ rw (early, finish_tool_call) (finish_admitted-IsValid message)
  ]
