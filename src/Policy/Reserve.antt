-- ===== src/Policy/Reserve.antt =====
-- `RunExecution.reserve_tool_calls` (backend/src/work_assistant/execution_policy.py).
use work_assistant_agent.Prelude.{
  ℕ, ◌+◌, Bool, false, ◌||◌, not, String, Option, none, some, List, [], ◌∷◌, ◌++◌, ok, err,
  contains, length, add, str_eq, ltb, ◌==◌, ◌>>◌, if◌then◌else◌,
}
use work_assistant_agent.Prelude.Dict.{Dict, insert, keys}
use work_assistant_agent.Prelude.Names.{text_length}
use work_assistant_agent.Capabilities.Values.{Fields}
use work_assistant_agent.Capabilities.Registry.{canonicalize_call}
use work_assistant_agent.Policy.Violation.{
  PolicyViolation, tool_call_limit_exceeded, repeated_call, tool_denied, execution_failed,
}
use work_assistant_agent.Policy.State.{
  RunConfig, RunExecution, ToolReservation, Policy, ensure_deadline,
}

-- A Tool call of a model's answer. A field is `none` where the key is missing, or its value has
-- not the type that the code asks for.
pub record ToolCall : Type 0 where
  pub id : Option String
  pub name : Option String
  pub args : Option Fields

-- The local variables of the loop.
pub record Scan : Type 0 where
  pub pending : List ToolReservation
  pub last_fingerprint : Option String
  pub identical_count : ℕ
  pub repeated_count : ℕ
  pub known_call_ids : List String

-- How the loop, or one round of it, ends: `repeats` also writes its counters back.
pub data ScanEnd : Type 0 where
  scanned : Scan → ScanEnd
  refused : PolicyViolation → ScanEnd
  repeats : Scan → ScanEnd

-- `fingerprint == last_fingerprint`
abbrev pub same_last : String → Option String → Bool
same_last f none = false
same_last f (some g) = str_eq f g

-- The id, Tool and arguments of a call, unless "tool_call_invalid" is raised.
abbrev well_formed : ToolCall → List String → Option (String × String × Fields)
well_formed call known = elim call.id [
  | none ↦ none
  | some id ↦
      if text_length id == 0 || (ltb 128 (text_length id) || contains id known)
      then none
      else elim call.name [
        | none ↦ none
        | some name ↦ elim call.args [ none ↦ none | some args ↦ some (id, name, args) ]
      ]
]

-- The counters of a call with this fingerprint.
abbrev pub counted : String → Scan → Scan
counted fingerprint sc =
    let same = same_last fingerprint sc.last_fingerprint in
    record sc {
      last_fingerprint = some fingerprint;
      identical_count = if same then sc.identical_count + 1 else 1;
      repeated_count = if same then sc.repeated_count + 1 else sc.repeated_count;
    }

-- One round of the loop.
unfoldable pub scan_call : RunConfig → ToolCall → Scan → ScanEnd
scan_call c call sc = elim (well_formed call sc.known_call_ids) [
  | none ↦ refused (execution_failed "tool_call_invalid")
  | some (id, tool_id, arguments) ↦
      if not (contains tool_id c.visible_tool_ids)
      then refused tool_denied
      else elim (canonicalize_call c.fingerprint c.tool_registry tool_id arguments) [
        | err e ↦ refused (execution_failed "tool_arguments_invalid")
        | ok (validated, fingerprint) ↦
            let next : Scan = counted fingerprint sc in
            if ltb c.agent.budget.max_identical_tool_calls next.identical_count
            then repeats next
            else scanned (record next {
              pending =
                  sc.pending
                  ++ (record {
                    tool_call_id = id;
                    tool_id = tool_id;
                    validated_arguments = validated;
                    fingerprint = fingerprint;
                  })
                    ∷ [];
              known_call_ids = add id sc.known_call_ids;
            })
      ]
]

unfoldable pub scan_calls : RunConfig → List ToolCall → Scan → ScanEnd
scan_calls c [] sc = scanned sc
scan_calls c (call ∷ calls) sc = elim (scan_call c call sc) [
  | scanned next ↦ scan_calls c calls next
  | refused v ↦ refused v
  | repeats next ↦ repeats next
]

-- `self._reservations.update({item.tool_call_id: item for item in pending})`
unfoldable pub update_reservations :
    List ToolReservation → Dict ToolReservation → Dict ToolReservation
update_reservations [] d = d
update_reservations (r ∷ rs) d = update_reservations rs (insert r.tool_call_id r d)

-- The counters of the loop, written back.
abbrev pub write_counters : Scan → RunExecution → RunExecution
write_counters sc s = record s {
  last_tool_fingerprint = sc.last_fingerprint;
  identical_tool_calls = sc.identical_count;
  repeated_tool_calls = sc.repeated_count;
}

unfoldable pub finish_scan : ScanEnd → Policy (Unit {0})
finish_scan (scanned sc) s = (
  ok tt,
  record (write_counters sc s) { reservations = update_reservations sc.pending s.reservations },
)
finish_scan (refused v) s = (err v, s)
finish_scan (repeats sc) s = (err repeated_call, write_counters sc s)

abbrev pub scan_of : RunExecution → Scan
scan_of s = record {
  pending = [];
  last_fingerprint = s.last_tool_fingerprint;
  identical_count = s.identical_tool_calls;
  repeated_count = s.repeated_tool_calls;
  known_call_ids = keys s.reservations ++ keys s.started_calls;
}

-- The attempt is counted before the limit is tested, and stays counted.
unfoldable pub reserve_admitted : RunConfig → List ToolCall → Policy (Unit {0})
unfolding scan_calls scan_call finish_scan
reserve_admitted c calls s =
    let counted_in : RunExecution = record s {
      tool_calls_attempted = s.tool_calls_attempted + length calls;
    } in
    if ltb c.agent.budget.max_tool_calls counted_in.tool_calls_attempted
    then (err tool_call_limit_exceeded, counted_in)
    else finish_scan (scan_calls c calls (scan_of counted_in)) counted_in

unfoldable pub reserve_tool_calls : RunConfig → ℕ → List ToolCall → Policy (Unit {0})
unfolding ensure_deadline reserve_admitted
reserve_tool_calls c now [] s = ensure_deadline now s
reserve_tool_calls c now (call ∷ calls) s =
    (ensure_deadline now >> reserve_admitted c (call ∷ calls)) s
