-- ===== src/Usage/Ledger/Invariant.antt =====
-- The invariant of a ledger, and what an operation on one attempt may change: it touches an open
-- attempt only, and keeps its number. So a terminal attempt stays as it is.
use work_assistant_agent.Prelude.{
  ℕ, ◌+◌, ◌≤◌, ◌<◌, ◌≡◌, ◌≢◌, refl, true, false, String, none, some, arith, str_eq, eq_iff, is_some,
  Bool-cases, inl, inr, subst,
}
use work_assistant_agent.Prelude.Dict.{Dict, lookup, insert, lookup-insert}
use work_assistant_agent.Usage.Ledger.{new_ledger}
use work_assistant_agent.Usage.Ledger.Types.{Attempt, RunUsageLedger, ModelAttemptStart}
use work_assistant_agent.Usage.Ledger.Finish.{is_terminal}

-- An attempt under its own id: its numbers start at 1; it has a completion time exactly when it is
-- terminal; a noted finish has its time, and is gone once the attempt is terminal.
pub record AttemptIsValid (id : String) (a : Attempt) : Type 0 where
  pub named : a.start.attempt_id ≡ id
  pub call_from_one : 1 ≤ a.start.call_index
  pub attempt_from_one : 1 ≤ a.start.attempt_index
  pub completed : is_some a.completed_at ≡ is_terminal a
  pub noted : is_some a.pending_finish ≡ is_some a.pending_completed_at
  pub not_noted : is_terminal a ≡ true → is_some a.pending_finish ≡ false

-- The attempt whose retry has the given numbers.
pub record Parent (attempts : Dict Attempt) (call_index attempt_index : ℕ) : Type 0 where
  pub id : String
  pub parent : Attempt
  pub found : lookup id attempts ≡ some parent
  pub same_call : parent.start.call_index ≡ call_index
  pub before : parent.start.attempt_index + 1 ≡ attempt_index
  pub over : is_terminal parent ≡ true

-- Numbers that a new attempt may have been given.
pub record Numbered (m : RunUsageLedger) (call_index attempt_index : ℕ) : Type 0 where
  pub call_from_one : 1 ≤ call_index
  pub index_from_one : 1 ≤ attempt_index
  pub below : call_index < m.next_call_index
  pub chain : 1 < attempt_index → Parent m.attempts call_index attempt_index

-- The starts that wait are new, and no two first attempts, there or waiting, have the same call. (Two
-- retries of one parent that wait at the same time have the same numbers.)
pub record IsValid (l : RunUsageLedger) : Type 0 where
  pub next_from_one : 1 ≤ l.next_call_index
  pub at : (k : String) (a : Attempt) → lookup k l.attempts ≡ some a → AttemptIsValid k a
  pub below :
      (k : String) (a : Attempt)
      → lookup k l.attempts ≡ some a
      → a.start.call_index < l.next_call_index
  pub first_once :
      (j k : String) (a b : Attempt)
      → lookup j l.attempts ≡ some a
      → lookup k l.attempts ≡ some b
      → a.start.attempt_index ≡ 1
      → b.start.attempt_index ≡ 1
      → a.start.call_index ≡ b.start.call_index
      → j ≡ k
  pub begun_named :
      (k : String) (s : ModelAttemptStart) → lookup k l.begun ≡ some s → s.attempt_id ≡ k
  pub begun_new :
      (k : String) (s : ModelAttemptStart) → lookup k l.begun ≡ some s → lookup k l.attempts ≡ none
  pub begun_numbered :
      (k : String) (s : ModelAttemptStart)
      → lookup k l.begun ≡ some s
      → Numbered l s.call_index s.attempt_index
  pub begun_first :
      (j k : String) (a : Attempt) (s : ModelAttemptStart)
      → lookup j l.attempts ≡ some a
      → lookup k l.begun ≡ some s
      → a.start.attempt_index ≡ 1
      → s.attempt_index ≡ 1
      → a.start.call_index ≢ s.call_index
  pub begun_once :
      (j k : String) (s t : ModelAttemptStart)
      → lookup j l.begun ≡ some s
      → lookup k l.begun ≡ some t
      → s.attempt_index ≡ 1
      → t.attempt_index ≡ 1
      → s.call_index ≡ t.call_index
      → j ≡ k
  pub chain :
      (k : String) (a : Attempt)
      → lookup k l.attempts ≡ some a
      → 1 < a.start.attempt_index
      → Parent l.attempts a.start.call_index a.start.attempt_index

pub new_ledger-IsValid : (now : ℕ) → IsValid (new_ledger now)
unfolding new_ledger lookup
new_ledger-IsValid now = record {
  next_from_one = omega arith;
  at = λ k a h. ground arith;
  below = λ k a h. ground arith;
  first_once = λ j k a b h. ground arith;
  begun_named = λ k s h. ground arith;
  begun_new = λ k s h. ground arith;
  begun_numbered = λ k s h. absurd (ground arith);
  begun_first = λ j k a s h. ground arith;
  begun_once = λ j k s t h. ground arith;
  chain = λ k a h. ground arith;
}

-- `a` becomes `b` under the id.
pub record Evolves (id : String) (a b : Attempt) : Type 0 where
  pub same_start : b.start ≡ a.start
  pub was_open : is_terminal a ≡ false
  pub keeps : AttemptIsValid id a → AttemptIsValid id b

pub data Change (l m : RunUsageLedger) : Type 0 where
  kept :
      m.attempts ≡ l.attempts
      → m.next_call_index ≡ l.next_call_index
      → m.begun ≡ l.begun
      → Change l m
  touched :
      (id : String) (a b : Attempt)
      → lookup id l.attempts ≡ some a
      → Evolves id a b
      → m.attempts ≡ insert id b l.attempts
      → m.next_call_index ≡ l.next_call_index
      → m.begun ≡ l.begun
      → Change l m

module _ (d : Dict Attempt) (id : String) (a b : Attempt) (found : lookup id d ≡ some a)
    (ev : Evolves id a b) where
  -- What stands at a key after the change stood there before, with the same start.
  back :
      (k : String) (x : Attempt)
      → lookup k (insert id b d) ≡ some x
      → (y : Attempt) × (lookup k d ≡ some y) × (x.start ≡ y.start)
  back k x h = elim (Bool-cases (str_eq id k)) [
    | inl same ↦
        (a, ground (arith, eq_iff id k), ground (arith, lookup-insert id k b d, ev.same_start))
    | inr other ↦ (x, ground (arith, lookup-insert id k b d), refl)
  ]

  touched_valid :
      ((k : String) (x : Attempt) → lookup k d ≡ some x → AttemptIsValid k x)
      → (k : String) (x : Attempt) → lookup k (insert id b d) ≡ some x
      → AttemptIsValid k x
  touched_valid all k x h = elim (Bool-cases (str_eq id k)) [
    | inl same ↦
        let e : id ≡ k = (eq_iff id k).0 same in
        let here : b ≡ x = ground (arith, lookup-insert id k b d) in
        subst (λ j. AttemptIsValid j x) e
          (subst (AttemptIsValid id) here (ev.keeps (all id a found)))
    | inr other ↦ all k x (ground (arith, lookup-insert id k b d))
  ]

  -- A parent is terminal, so it is not the attempt that was touched.
  touched-Parent : (call index : ℕ) → Parent d call index → Parent (insert id b d) call index
  touched-Parent call index p = record {
    id = p.id;
    parent = p.parent;
    found = ground (arith, lookup-insert id p.id b d, eq_iff id p.id, p.found, p.over, ev.was_open);
    same_call = p.same_call;
    before = p.before;
    over = p.over;
  }

Numbered-kept :
    {l m : RunUsageLedger} {c i : ℕ}
    → m.attempts ≡ l.attempts
    → m.next_call_index ≡ l.next_call_index
    → Numbered l c i
    → Numbered m c i
Numbered-kept e n v = record {
  call_from_one = v.call_from_one;
  index_from_one = v.index_from_one;
  below = rw n v.below;
  chain = rw e v.chain;
}

pub Change-IsValid : {l m : RunUsageLedger} → Change l m → IsValid l → IsValid m
Change-IsValid {l} {m} (kept e n w) v = record {
  next_from_one = ground (arith, v.next_from_one);
  at = rw e v.at;
  below = rw (e, n) v.below;
  first_once = rw e v.first_once;
  begun_named = rw w v.begun_named;
  begun_new = rw (e, w) v.begun_new;
  begun_numbered = λ k s h. Numbered-kept e n (v.begun_numbered k s (rw w at h));
  begun_first = rw (e, w) v.begun_first;
  begun_once = rw w v.begun_once;
  chain = rw e v.chain;
}
Change-IsValid {l} {m} (touched id a b found ev e n w) v = record {
  next_from_one = ground (arith, v.next_from_one);
  at = rw e (touched_valid l.attempts id a b found ev v.at);
  below =
      rw (e, n)
        (λ k x h.
          let (y, fy, sy) = back l.attempts id a b found ev k x h in
          ground (arith, v.below k y fy));
  first_once = rw e (λ j k x z hx hz i i' c.
      let (x', fx, sx) = back l.attempts id a b found ev j x hx in
      let (z', fz, sz) = back l.attempts id a b found ev k z hz in
      v.first_once j k x' z' fx fz (ground arith) (ground arith) (ground arith));
  begun_named = rw w v.begun_named;
  begun_new =
      rw (e, w)
        (λ k s h.
          ground (arith, lookup-insert id k b l.attempts, eq_iff id k, v.begun_new k s h, found));
  begun_numbered = λ k s h.
      let n' = v.begun_numbered k s (rw w at h) in
      record {
        call_from_one = n'.call_from_one;
        index_from_one = n'.index_from_one;
        below = rw n n'.below;
        chain = λ retry. rw e (touched-Parent l.attempts id a b found ev _ _ (n'.chain retry));
      };
  begun_first =
      rw (e, w)
        (λ j k x s hx hs i i'.
          let (x', fx, sx) = back l.attempts id a b found ev j x hx in
          λ c. v.begun_first j k x' s fx hs (ground arith) i' (ground arith));
  begun_once = rw w v.begun_once;
  chain = rw e (λ k x h first.
      let (y, fy, sy) = back l.attempts id a b found ev k x h in
      rw sy (touched-Parent l.attempts id a b found ev _ _ (v.chain k y fy (ground arith))));
}
