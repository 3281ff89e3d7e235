-- ===== src/Policy/Invariant/Reserving.antt =====
-- `reserve_tool_calls` keeps the invariant: what it reserves was counted as attempted, and fits
-- the budget.
use work_assistant_agent.Prelude.{
  ℕ, suc, ◌+◌, ◌≤◌, ◌≡◌, refl, Bool, true, false, String, List, [], ◌∷◌, arith, length,
  length-append, eq_iff, ltb, leb, Bool-cases, inl, inr, ◌⊎◌,
}
use work_assistant_agent.Prelude.Dict.{Dict, insert, has_key, lookup-insert, length-insert}
use work_assistant_agent.Policy.State.{RunConfig, RunExecution, ToolReservation, ensure_deadline}
use work_assistant_agent.Policy.Reserve.{
  ToolCall, Scan, ScanEnd, scanned, refused, repeats, scan_call, scan_calls, update_reservations,
  finish_scan, reserve_admitted, reserve_tool_calls, scan_of,
}
use work_assistant_agent.Policy.Invariant.{Book, book, IsValid}

abbrev is_scanned : ScanEnd → Bool
is_scanned (scanned _) = true
is_scanned _ = false

length-update_reservations :
    (rs : List ToolReservation) (d : Dict ToolReservation)
    → length (update_reservations rs d) ≤ length d + length rs
unfolding update_reservations
length-update_reservations [] d = omega arith
length-update_reservations (r ∷ rs) d = omega (
  arith,
  length-update_reservations rs (insert r.tool_call_id r d),
  length-insert r.tool_call_id r d,
)

update_reservations_keeps :
    (k : String) (rs : List ToolReservation) (d : Dict ToolReservation)
    → has_key k d ≡ true
    → has_key k (update_reservations rs d) ≡ true
unfolding update_reservations
update_reservations_keeps k [] d h = h
update_reservations_keeps k (r ∷ rs) d h =
    update_reservations_keeps k rs (insert r.tool_call_id r d)
      (ground (arith, lookup-insert r.tool_call_id k r d, eq_iff r.tool_call_id k))

scan_call_grows :
    (c : RunConfig) (call : ToolCall) (sc next : Scan)
    → scan_call c call sc ≡ scanned next
    → length next.pending ≡ suc (length sc.pending)
unfolding scan_call
scan_call_grows c call sc next h = grind (arith, length-append)

ScanEnd-cases : (e : ScanEnd) → ((sc : Scan) × (e ≡ scanned sc)) ⊎ (is_scanned e ≡ false)
ScanEnd-cases (scanned sc) = inl (sc, refl)
ScanEnd-cases (refused v) = inr refl
ScanEnd-cases (repeats sc) = inr refl

scan_calls_grows :
    (c : RunConfig) (calls : List ToolCall) (sc last : Scan)
    → scan_calls c calls sc ≡ scanned last
    → length last.pending ≡ length sc.pending + length calls
unfolding scan_calls
scan_calls_grows c [] sc last h = ground arith
scan_calls_grows c (call ∷ calls) sc last h = elim (ScanEnd-cases (scan_call c call sc)) [
  | inl (next, e) ↦
      omega
        (arith, scan_call_grows c call sc next e, scan_calls_grows c calls next last (ground arith))
  | inr e ↦ absurd (ground arith)
]

-- What the scan of some calls leaves reserved.
abbrev reserved_by : ScanEnd → Dict ToolReservation → Dict ToolReservation
reserved_by (scanned sc) d = update_reservations sc.pending d
reserved_by _ d = d

finish_scan-book :
    (e : ScanEnd) (s : RunExecution)
    → book (finish_scan e s).1 ≡ record (book s) { reservations = reserved_by e s.reservations }
unfolding finish_scan
finish_scan-book (scanned sc) s = refl
finish_scan-book (refused v) s = refl
finish_scan-book (repeats sc) s = refl

length-reserved_by :
    (c : RunConfig) (calls : List ToolCall) (sc : Scan) (d : Dict ToolReservation) (e : ScanEnd)
    → scan_calls c calls sc ≡ e
    → length sc.pending ≡ 0
    → length (reserved_by e d) ≤ length d + length calls
length-reserved_by c calls sc d (scanned last) h z =
    omega (arith, length-update_reservations last.pending d, scan_calls_grows c calls sc last h)
length-reserved_by c calls sc d (refused v) h z = omega arith
length-reserved_by c calls sc d (repeats last) h z = omega arith

reserved_by_keeps :
    (k : String) (e : ScanEnd) (d : Dict ToolReservation)
    → has_key k d ≡ true
    → has_key k (reserved_by e d) ≡ true
reserved_by_keeps k (scanned sc) d h = update_reservations_keeps k sc.pending d h
reserved_by_keeps k (refused v) d h = h
reserved_by_keeps k (repeats sc) d h = h

-- More attempts, and more reservations within them and the budget.
grown_IsValid :
    (budget attempts : ℕ) (b : Book) (d : Dict ToolReservation)
    → IsValid budget b
    → length d ≤ attempts
    → length d ≤ budget
    → ((k : String) → has_key k b.reservations ≡ true → has_key k d ≡ true)
    → IsValid budget (record b { tool_calls_attempted = attempts; reservations = d })
grown_IsValid budget attempts b d v within fits keeps = record {
  attempted = within;
  reserved = fits;
  started_reserved = λ k h. keeps k (v.started_reserved k h);
  started_once = v.started_once;
  finished_started = v.finished_started;
  succeeded = v.succeeded;
  confirmed_started = v.confirmed_started;
  confirmed_in_order = v.confirmed_in_order;
  confirmed_finished = v.confirmed_finished;
  confirmed_source = v.confirmed_source;
  sized_source = v.sized_source;
  ordered = v.ordered;
  ordered_once = v.ordered_once;
}

reserve_admitted-IsValid :
    (c : RunConfig) (calls : List ToolCall) (s : RunExecution)
    → IsValid c.agent.budget.max_tool_calls (book s)
    → IsValid c.agent.budget.max_tool_calls (book (reserve_admitted c calls s).1)
unfolding reserve_admitted
reserve_admitted-IsValid c calls s v =
    let counted_in : RunExecution = record s {
      tool_calls_attempted = s.tool_calls_attempted + length calls;
    } in
    elim (Bool-cases (ltb c.agent.budget.max_tool_calls (s.tool_calls_attempted + length calls))) [
      | inl over ↦
          rw (over, reserve_admitted)
            (grown_IsValid _ _ (book s) s.reservations v (omega (arith, v.attempted)) v.reserved
              (λ k h. h))
      | inr fits ↦
          let e = scan_calls c calls (scan_of counted_in) in
          let bound = length-reserved_by c calls (scan_of counted_in) s.reservations e refl refl in
          rw (fits, reserve_admitted)
            (rw (finish_scan-book e counted_in) (
              grown_IsValid _ _ (book s) (reserved_by e s.reservations) v
                (omega (arith, v.attempted, bound)) (ground (arith, v.attempted, bound))
                (λ k h. reserved_by_keeps k e s.reservations h)))
    ]

pub reserve_tool_calls-IsValid :
    (c : RunConfig) (now : ℕ) (calls : List ToolCall) (s : RunExecution)
    → IsValid c.agent.budget.max_tool_calls (book s)
    → IsValid c.agent.budget.max_tool_calls (book (reserve_tool_calls c now calls s).1)
unfolding reserve_tool_calls
reserve_tool_calls-IsValid c now [] s v = elim (Bool-cases (leb s.deadline_at now)) [
  | inl late ↦ rw (late, reserve_tool_calls, ensure_deadline) v
  | inr early ↦ rw (early, reserve_tool_calls, ensure_deadline) v
]
reserve_tool_calls-IsValid c now (call ∷ calls) s v = elim (Bool-cases (leb s.deadline_at now)) [
  | inl late ↦ rw (late, reserve_tool_calls) v
  | inr early ↦ rw (early, reserve_tool_calls) (reserve_admitted-IsValid c (call ∷ calls) s v)
]
