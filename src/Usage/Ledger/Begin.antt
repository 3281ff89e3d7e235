-- ===== src/Usage/Ledger/Begin.antt =====
-- `begin_attempt` up to its await keeps the invariant: a first attempt opens a new call, and a retry
-- follows a terminal attempt of its call.
use work_assistant_agent.Prelude.{
  ℕ, ◌+◌, ◌<◌, ◌≡◌, refl, sym, ap, ◌∙◌, Bool, true, false, String, Option, none, some, Result, ok,
  err, arith, Option-cases, inl, inr, continue, if◌then◌else◌,
}
use work_assistant_agent.Prelude.Dict.{Dict, lookup, lookup-insert_cases}
use work_assistant_agent.Usage.Ledger.{begin_retry, number_attempt, note_begun, open_attempt}
use work_assistant_agent.Usage.Ledger.Types.{
  Attempt, RunUsageLedger, ModelAttemptStart, ModelCallKind, LedgerError, ModelAttemptStatus,
  same_status,
}
use work_assistant_agent.Usage.Ledger.Finish.{is_terminal}
use work_assistant_agent.Usage.Ledger.Invariant.{Numbered, IsValid}

-- The numbers that a new attempt is given; those of a first attempt are above all others.
record Given (m : RunUsageLedger) (call index : ℕ) : Type 0 where
  numbered : Numbered m call index
  above :
      (k : String) (a : Attempt)
      → lookup k m.attempts ≡ some a
      → index ≡ 1
      → a.start.call_index < call
  begun_above :
      (k : String) (s : ModelAttemptStart)
      → lookup k m.begun ≡ some s
      → index ≡ 1
      → s.call_index < call

later_IsValid :
    (l : RunUsageLedger)
    → IsValid l
    → IsValid (record l { next_call_index = l.next_call_index + 1 })
later_IsValid l v = record {
  next_from_one = omega arith;
  at = v.at;
  below = λ k a h. ground (arith, v.below k a h);
  first_once = v.first_once;
  chain = v.chain;
  begun_named = v.begun_named;
  begun_new = v.begun_new;
  begun_numbered = λ k s h.
      let n = v.begun_numbered k s h in
      record {
        call_from_one = n.call_from_one;
        index_from_one = n.index_from_one;
        below = ground (arith, n.below);
        chain = n.chain;
      };
  begun_first = v.begun_first;
  begun_once = v.begun_once;
}

first_Given :
    (l : RunUsageLedger)
    → IsValid l
    → Given (record l { next_call_index = l.next_call_index + 1 }) l.next_call_index 1
first_Given l v = record {
  numbered = record {
    call_from_one = v.next_from_one;
    index_from_one = omega arith;
    below = omega arith;
    chain = λ h. absurd (omega arith);
  };
  above = λ k a h i. v.below k a h;
  begun_above = λ k s h i. (v.begun_numbered k s h).below;
}

retry_Given :
    (l : RunUsageLedger) (parent : String) (a : Attempt)
    → IsValid l
    → lookup parent l.attempts ≡ some a
    → is_terminal a ≡ true
    → Given l a.start.call_index (a.start.attempt_index + 1)
retry_Given l parent a v found over =
    let later = (v.at parent a found).attempt_from_one in
    record {
      numbered = record {
        call_from_one = (v.at parent a found).call_from_one;
        index_from_one = omega arith;
        below = v.below parent a found;
        chain = λ h. record {
          id = parent;
          parent = a;
          found = found;
          same_call = refl;
          before = refl;
          over = over;
        };
      };
      above = λ k b h i. absurd (omega (arith, later, i));
      begun_above = λ k s h i. absurd (omega (arith, later, i));
    }

-- What the numbering of a new attempt leaves: a valid ledger and, if it returned, the numbers.
record NumberedBy (l : RunUsageLedger) (r : Result LedgerError (ℕ × ℕ) × RunUsageLedger)
    : Type 0 where
  valid : IsValid r.1
  same_attempts : r.1.attempts ≡ l.attempts
  same_begun : r.1.begun ≡ l.begun
  numbers : (c i : ℕ) → r.0 ≡ ok (c, i) → Given r.1 c i

refused : (l : RunUsageLedger) (e : LedgerError) → IsValid l → NumberedBy l (err e, l)
refused l e v = record {
  valid = v;
  same_attempts = refl;
  same_begun = refl;
  numbers = λ c i h. absurd (ground arith);
}

guarded_NumberedBy :
    (l : RunUsageLedger) (open_parent duplicate : Bool) (e f : LedgerError) (c i : ℕ)
    → IsValid l
    → (open_parent ≡ false → Given l c i)
    → NumberedBy l
        (if open_parent then (err e, l) else if duplicate then (err f, l) else (ok (c, i), l))
guarded_NumberedBy l true duplicate e f c i v k = refused l e v
guarded_NumberedBy l false true e f c i v k = refused l f v
guarded_NumberedBy l false false e f c i v k = record {
  valid = v;
  same_attempts = refl;
  same_begun = refl;
  numbers = λ c' i' h.
      let c_is : c ≡ c' = ground arith in
      let i_is : i ≡ i' = ground arith in rw (← c_is, ← i_is) (k refl);
}

retry_NumberedBy :
    (l : RunUsageLedger) (parent : String) (a : Attempt)
    → IsValid l
    → lookup parent l.attempts ≡ some a
    → NumberedBy l (begin_retry (some a) l)
unfolding begin_retry
retry_NumberedBy l parent a v found =
    guarded_NumberedBy l (same_status a.status ModelAttemptStatus.started) _ _ _ _ _ v
      (λ over. retry_Given l parent a v found (ground arith))

number_attempt-NumberedBy :
    (retry_of : Option String) (l : RunUsageLedger)
    → IsValid l
    → NumberedBy l (number_attempt retry_of l)
unfolding number_attempt
number_attempt-NumberedBy none l v = record {
  valid = later_IsValid l v;
  same_attempts = refl;
  same_begun = refl;
  numbers = λ c i h.
      let c_is : l.next_call_index ≡ c = ground arith in
      let i_is : 1 ≡ i = ground arith in rw (← c_is, ← i_is) (first_Given l v);
}
number_attempt-NumberedBy (some parent) l v = elim (Option-cases (lookup parent l.attempts)) [
  | inl e ↦ rw (e, number_attempt) (refused l _ v)
  | inr (a, e) ↦ rw (e, number_attempt) (retry_NumberedBy l parent a v e)
]

-- A new start waits.
note_begun-IsValid :
    (s : ModelAttemptStart) (l : RunUsageLedger)
    → IsValid l
    → lookup s.attempt_id l.attempts ≡ none
    → Given l s.call_index s.attempt_index
    → IsValid (note_begun s l).1
unfolding note_begun
note_begun-IsValid s l v unused g = record {
  next_from_one = v.next_from_one;
  at = v.at;
  below = v.below;
  first_once = v.first_once;
  chain = v.chain;
  begun_named = λ k t h. elim (lookup-insert_cases s.attempt_id k s t l.begun h) [
    | inl (key, same) ↦ ground (arith, key, same)
    | inr (_, old) ↦ v.begun_named k t old
  ];
  begun_new = λ k t h. elim (lookup-insert_cases s.attempt_id k s t l.begun h) [
    | inl (key, same) ↦ ground (arith, key, unused)
    | inr (_, old) ↦ v.begun_new k t old
  ];
  begun_numbered = λ k t h. elim (lookup-insert_cases s.attempt_id k s t l.begun h) [
    | inl (key, same) ↦ rw (← same) (Numbered-begun l _ _ _ g.numbered)
    | inr (_, old) ↦ Numbered-begun l _ _ _ (v.begun_numbered k t old)
  ];
  begun_first = λ j k a t ha ht i i'. elim (lookup-insert_cases s.attempt_id k s t l.begun ht) [
    | inl (key, same) ↦
        λ c. ground (arith, g.above j a ha (ap (λ x. x.attempt_index) same ∙ i'), same, c)
    | inr (_, old) ↦ v.begun_first j k a t ha old i i'
  ];
  begun_once = λ j k x y hx hy i i' c. elim (lookup-insert_cases s.attempt_id j s x l.begun hx) [
    | inl (key, same) ↦ elim (lookup-insert_cases s.attempt_id k s y l.begun hy) [
      | inl (key', _) ↦ sym key ∙ key'
      | inr (_, old) ↦
          absurd
            (ground (arith, g.begun_above k y old (ap (λ x. x.attempt_index) same ∙ i), same, c))
    ]
    | inr (_, new) ↦ elim (lookup-insert_cases s.attempt_id k s y l.begun hy) [
      | inl (key', same) ↦
          absurd
            (ground (arith, g.begun_above j x new (ap (λ x. x.attempt_index) same ∙ i'), same, c))
      | inr (_, old) ↦ v.begun_once j k x y new old i i' c
    ]
  ];
}
  where
    Numbered-begun :
        (l : RunUsageLedger) (d : Dict ModelAttemptStart) (c i : ℕ)
        → Numbered l c i
        → Numbered (record l { begun = d }) c i
    Numbered-begun l d c i n = record {
      call_from_one = n.call_from_one;
      index_from_one = n.index_from_one;
      below = n.below;
      chain = n.chain;
    }

opened :
    (uuid : String) (kind : ModelCallKind) (l : RunUsageLedger)
    (r : Result LedgerError (ℕ × ℕ) × RunUsageLedger)
    → lookup uuid l.attempts ≡ none
    → NumberedBy l r
    → IsValid
        (continue r.0
          (λ index. note_begun (record {
            attempt_id = uuid;
            call_index = index.0;
            attempt_index = index.1;
            call_kind = kind;
          }))
          r.1).1
opened uuid kind l (err _, m) unused by = by.valid
opened uuid kind l (ok (c, i), m) unused by =
    note_begun-IsValid
      (record { attempt_id = uuid; call_index = c; attempt_index = i; call_kind = kind }) m by.valid
      (rw by.same_attempts unused) (by.numbers c i refl)

-- A call of `begin_attempt` up to its await keeps the ledger valid, with a new id.
pub open_attempt-IsValid :
    (uuid : String) (kind : ModelCallKind) (retry_of : Option String) (l : RunUsageLedger)
    → IsValid l
    → lookup uuid l.attempts ≡ none
    → IsValid (open_attempt uuid kind retry_of l).1
unfolding open_attempt
open_attempt-IsValid uuid kind retry_of l v unused =
    opened uuid kind l (number_attempt retry_of l) unused (number_attempt-NumberedBy retry_of l v)
