-- ===== src/Repository/Lives/Pages.antt =====
-- A page of events: `get_events` after a number answers what was stored from there on.
use work_assistant_agent.Prelude.{
  ℕ, zero, suc, ◌-◌, ◌≡◌, refl, sym, ap, Bool, true, ◌&&◌, String, none, some, [], ◌∷◌, map, filter,
  drop, All, ok, ltb, leb, arith, str_eq, Bool-cases, inl, inr,
}
use work_assistant_agent.Prelude.Dict.{Dict, lookup, values}
use work_assistant_agent.Prelude.Sorting.{is_ordered, sort_by_ordered}
use work_assistant_agent.Capabilities.Decision.{Principal}
use work_assistant_agent.Schemas.Payload.Stored.{stored_payload_stays}
use work_assistant_agent.Repository.Records.{
  RunRecord, ThreadRecord, EventRecord, Store, empty_store,
}
use work_assistant_agent.Repository.Access.{require_available, require_authorized_run}
use work_assistant_agent.Repository.Views.{EventEnvelope, event_view}
use work_assistant_agent.Repository.Events.{require_run}
use work_assistant_agent.Repository.Reads.{event_rows, check_each, view_row, get_events}
use work_assistant_agent.Repository.Lives.{IsNumbered, IsStored}
use work_assistant_agent.Repository.Lives.Log.{log_in, log_of}
use work_assistant_agent.Repository.Lives.Histories.{Reach, Reach-IsLogged}

abbrev pub rows_in : String → Dict EventRecord → Dict EventRecord
rows_in id d = filter (λ (row : String × EventRecord). str_eq row.1.run_id id) d

-- The rows of the events of a Run, as they were added.
abbrev pub rows_of : String → Store → Dict EventRecord
rows_of id s = rows_in id s.events

-- A row as it was stored.
abbrev pub envelope : String × EventRecord → EventEnvelope
envelope row = record {
  event_id = row.0;
  run_id = row.1.run_id;
  thread_id = row.1.thread_id;
  seq = row.1.seq;
  type = row.1.type;
  occurred_at = row.1.occurred_at;
  payload = row.1.payload;
}

values-rows : (id : String) (d : Dict EventRecord) → values (rows_in id d) ≡ log_in id (values d)
values-rows id [] = refl
values-rows id ((k, e) ∷ d) = ground (arith, values-rows id d)

drop_nil : {A : Type 0} (m : ℕ) → drop {A = A} m [] ≡ []
drop_nil zero = refl
drop_nil (suc m) = refl

-- The rows after a number, of rows that are numbered.
rows_after :
    (id : String) (k n m : ℕ) (d : Dict EventRecord)
    → m ≡ n - k
    → IsNumbered id k (values (rows_in id d))
    → filter (λ (row : String × EventRecord). str_eq row.1.run_id id && ltb n row.1.seq) d
      ≡ drop m (rows_in id d)
rows_after id k n m [] m_is h = sym (drop_nil m)
rows_after id k n m ((j, e) ∷ d) m_is h = elim (Bool-cases (str_eq e.run_id id)) [
  | inr other ↦ rw other (rows_after id k n m d m_is (rw other at h))
  | inl own ↦
      let (_, at, tail) = rw own at h in
      elim (Bool-cases (ltb n e.seq)) [
        | inl later ↦
            let first : m ≡ 0 = ground (arith, m_is, later, at) in
            let rest = rows_after id (suc k) n 0 d (ground (arith, later, at)) tail in
            rw (own, later, first) (ap (λ l. (j, e) ∷ l) rest)
        | inr earlier ↦
            let not_first : m ≡ suc (n - suc k) = ground (arith, m_is, earlier, at) in
            rw (own, earlier, not_first) (rows_after id (suc k) n (n - suc k) d refl tail)
      ]
]

not_after : String × EventRecord → String × EventRecord → Bool
not_after a b = leb a.1.seq b.1.seq

numbered_ordered :
    (id : String) (k : ℕ) (d : Dict EventRecord)
    → IsNumbered id k (values d)
    → is_ordered not_after d ≡ true
unfolding not_after
numbered_ordered id k [] h = refl
numbered_ordered id k (x ∷ []) h = refl
numbered_ordered id k ((i, x) ∷ (j, y) ∷ d) (_, at, next) =
    ground (arith, at, next.1, numbered_ordered id (suc k) ((j, y) ∷ d) next)

ordered_drop :
    (m : ℕ) (d : Dict EventRecord)
    → is_ordered not_after d ≡ true
    → is_ordered not_after (drop m d) ≡ true
ordered_drop zero d h = h
ordered_drop (suc m) [] h = refl
ordered_drop (suc m) (x ∷ []) h = ordered_drop m [] refl
ordered_drop (suc m) (x ∷ y ∷ d) h = ordered_drop m (y ∷ d) (ground (arith, h))

All-rows :
    (id : String) (d : Dict EventRecord)
    → All IsStored (values d)
    → All IsStored (values (rows_in id d))
All-rows id [] h = tt
All-rows id ((k, e) ∷ d) (here, rest) = elim (Bool-cases (str_eq e.run_id id)) [
  | inl own ↦ rw own (here, All-rows id d rest)
  | inr other ↦ rw other (All-rows id d rest)
]

All-drop :
    (m : ℕ) (d : Dict EventRecord) → All IsStored (values d) → All IsStored (values (drop m d))
All-drop zero d h = h
All-drop (suc m) [] h = tt
All-drop (suc m) ((k, e) ∷ d) (_, rest) = All-drop m d rest

event_view-stored :
    (id : String) (e : EventRecord) → IsStored e → event_view id e ≡ ok (envelope (id, e))
unfolding event_view
event_view-stored id e h = rw (stored_payload_stays e.type e.payload h) refl

views_stored :
    (d : Dict EventRecord) → All IsStored (values d) → check_each view_row d ≡ ok (map envelope d)
unfolding check_each view_row
views_stored [] h = refl
views_stored ((k, e) ∷ d) (here, rest) = rw (event_view-stored k e here, views_stored d rest) refl

event_rows-drop :
    (id : String) (n : ℕ) (s : Store)
    → IsNumbered id 0 (log_of id s)
    → event_rows id n s ≡ drop n (rows_of id s)
unfolding event_rows not_after
event_rows-drop id n s h =
    let numbered = rw (← values-rows id s.events) at h in
    let ordered = ordered_drop n (rows_of id s) (numbered_ordered id 0 (rows_of id s) numbered) in
    rw (rows_after id 0 n n s.events (omega arith) numbered)
      (sort_by_ordered not_after (drop n (rows_of id s)) ordered)

-- Whatever was called on an empty repository, while it is open the owner of a Run gets every page of
-- its events: after the number n, the stored events but the first n, in their order and each as it
-- was stored. So a client that goes on from the last number that it saw loses no event and sees none
-- twice, and no stored event is refused on reading.
pub Reach-get_events :
    (is_control : ℕ → Bool) {s : Store} (id : String) (r : RunRecord) (n : ℕ)
    (principal : Principal) (t : ThreadRecord)
    → Reach is_control empty_store s
    → lookup id s.runs ≡ some r
    → s.fatal_error ≡ none
    → require_authorized_run r principal s ≡ ok t
    → get_events id n principal s ≡ ok (map envelope (drop n (rows_of id s)))
unfolding get_events require_available require_run
Reach-get_events is_control {s} id r n principal t h found available owned =
    let logged = Reach-IsLogged is_control h in
    let told = logged.known id r found in
    let stored = All-drop n (rows_of id s) (All-rows id s.events logged.stored) in
    rw (available, found, owned, event_rows-drop id n s told.numbered)
      (views_stored (drop n (rows_of id s)) stored)
