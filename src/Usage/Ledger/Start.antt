-- ===== src/Usage/Ledger/Start.antt =====
-- `begin_attempt` after its await keeps the invariant: the attempt that waited is there, or is given up.
use work_assistant_agent.Prelude.{
  ℕ, ◌<◌, ◌≡◌, refl, sym, ap, ◌∙◌, false, String, none, some, Result, ok, err, arith, ◌⊎◌, eq_iff,
  Bool-cases, Option-cases, inl, inr, continue, subst, List,
}
use work_assistant_agent.Prelude.Dict.{
  lookup, insert, lookup-insert, lookup-insert_cases, drop_key, lookup-drop_key,
}
use work_assistant_agent.Usage.Ledger.{write_start, add_attempt, leave_begun, start_attempt}
use work_assistant_agent.Usage.Ledger.Types.{
  Attempt, RunUsageLedger, Write, ModelAttemptStart, ModelAttemptStatus, LedgerError,
}
use work_assistant_agent.Usage.Ledger.Invariant.{AttemptIsValid, Parent, Numbered, IsValid}

abbrev fresh_attempt : ℕ → ModelAttemptStart → Attempt
fresh_attempt now s = record {
  start = s;
  started_at = now;
  status = ModelAttemptStatus.started;
  completed_at = none;
  usage = none;
  usage_persisted = false;
  pending_finish = none;
  pending_completed_at = none;
}

-- The ledger after the start left those that wait: valid, and the start may be added.
record Ready (s : ModelAttemptStart) (m : RunUsageLedger) : Type 0 where
  valid : IsValid m
  unused : lookup s.attempt_id m.attempts ≡ none
  gone : lookup s.attempt_id m.begun ≡ none
  numbered : Numbered m s.call_index s.attempt_index
  first_new :
      (k : String) (a : Attempt)
      → lookup k m.attempts ≡ some a
      → a.start.attempt_index ≡ 1
      → s.attempt_index ≡ 1
      → a.start.call_index ≡ s.call_index
      → ⊥
  begun_other :
      (k : String) (t : ModelAttemptStart)
      → lookup k m.begun ≡ some t
      → s.attempt_index ≡ 1
      → t.attempt_index ≡ 1
      → s.call_index ≡ t.call_index
      → ⊥

module _ (now : ℕ) (s : ModelAttemptStart) (m : RunUsageLedger) (y : Ready s m) where
  keep-Parent :
      (c i : ℕ)
      → Parent m.attempts c i
      → Parent (insert s.attempt_id (fresh_attempt now s) m.attempts) c i
  keep-Parent c i p = record {
    id = p.id;
    parent = p.parent;
    found = ground (
      arith,
      lookup-insert s.attempt_id p.id (fresh_attempt now s) m.attempts,
      eq_iff s.attempt_id p.id,
      p.found,
      y.unused,
    );
    same_call = p.same_call;
    before = p.before;
    over = p.over;
  }

  fresh_AttemptIsValid : AttemptIsValid s.attempt_id (fresh_attempt now s)
  fresh_AttemptIsValid = record {
    named = refl;
    call_from_one = y.numbered.call_from_one;
    attempt_from_one = y.numbered.index_from_one;
    completed = refl;
    noted = refl;
    not_noted = λ h. refl;
  }

  keep-Numbered :
      (c i : ℕ)
      → Numbered m c i
      → Numbered (record m { attempts = insert s.attempt_id (fresh_attempt now s) m.attempts }) c i
  keep-Numbered c i n = record {
    call_from_one = n.call_from_one;
    index_from_one = n.index_from_one;
    below = n.below;
    chain = λ retry. keep-Parent c i (n.chain retry);
  }

  -- An attempt that is there is the new one, or was there.
  cases :
      (k : String) (a : Attempt)
      → lookup k (insert s.attempt_id (fresh_attempt now s) m.attempts) ≡ some a
      → ((s.attempt_id ≡ k) × (fresh_attempt now s ≡ a)) ⊎ (lookup k m.attempts ≡ some a)
  cases k a h = elim (lookup-insert_cases s.attempt_id k (fresh_attempt now s) a m.attempts h) [
    | inl new ↦ inl new
    | inr (_, old) ↦ inr old
  ]

  start_of : (a : Attempt) → fresh_attempt now s ≡ a → s ≡ a.start
  start_of a h = ap (λ (x : Attempt). x.start) h

  add_attempt-IsValid : IsValid (add_attempt now s m).1
  unfolding add_attempt
  add_attempt-IsValid = record {
    next_from_one = y.valid.next_from_one;
    at = λ k a h. elim (cases k a h) [
      | inl (key, new) ↦
          subst (λ j. AttemptIsValid j a) key
            (subst (AttemptIsValid s.attempt_id) new fresh_AttemptIsValid)
      | inr old ↦ y.valid.at k a old
    ];
    below = λ k a h. elim (cases k a h) [
      | inl (_, new) ↦
          subst (λ (x : Attempt). x.start.call_index < m.next_call_index) new y.numbered.below
      | inr old ↦ y.valid.below k a old
    ];
    first_once = λ j k a b ha hb i i' c. elim (cases j a ha) [
      | inl (key, new) ↦ elim (cases k b hb) [
        | inl (key', _) ↦ sym key ∙ key'
        | inr old ↦
            let e = start_of a new in
            absurd (
              y.first_new k b old i' (ap (λ x. x.attempt_index) e ∙ i)
                (sym c ∙ sym (ap (λ x. x.call_index) e)))
      ]
      | inr old ↦ elim (cases k b hb) [
        | inl (_, new) ↦
            let e = start_of b new in
            absurd (
              y.first_new j a old i (ap (λ x. x.attempt_index) e ∙ i')
                (c ∙ sym (ap (λ x. x.call_index) e)))
        | inr old' ↦ y.valid.first_once j k a b old old' i i' c
      ]
    ];
    chain = λ k a h first. elim (cases k a h) [
      | inl (_, new) ↦
          subst
            (λ (x : Attempt).
              1 < x.start.attempt_index
              → Parent (insert s.attempt_id (fresh_attempt now s) m.attempts) x.start.call_index
                  x.start.attempt_index)
            new (λ retry. keep-Parent _ _ (y.numbered.chain retry)) first
      | inr old ↦ keep-Parent _ _ (y.valid.chain k a old first)
    ];
    begun_named = y.valid.begun_named;
    begun_new = λ k t h. ground (
      arith,
      lookup-insert s.attempt_id k (fresh_attempt now s) m.attempts,
      eq_iff s.attempt_id k,
      y.valid.begun_new k t h,
      y.gone,
      h,
    );
    begun_numbered = λ k t h. keep-Numbered _ _ (y.valid.begun_numbered k t h);
    begun_first = λ j k a t ha ht i i' c. elim (cases j a ha) [
      | inl (_, new) ↦
          let e = start_of a new in
          y.begun_other k t ht (ap (λ x. x.attempt_index) e ∙ i) i' (ap (λ x. x.call_index) e ∙ c)
      | inr old ↦ y.valid.begun_first j k a t old ht i i' c
    ];
    begun_once = y.valid.begun_once;
  }

Numbered-same :
    {l m : RunUsageLedger} {c i : ℕ}
    → m.attempts ≡ l.attempts
    → m.next_call_index ≡ l.next_call_index
    → Numbered l c i
    → Numbered m c i
Numbered-same e n v = record {
  call_from_one = v.call_from_one;
  index_from_one = v.index_from_one;
  below = rw n v.below;
  chain = rw e v.chain;
}

-- A start that waits no more.
leave_begun-Ready :
    (s : ModelAttemptStart) (l : RunUsageLedger)
    → IsValid l
    → lookup s.attempt_id l.begun ≡ some s
    → Ready s (leave_begun s.attempt_id l)
unfolding leave_begun
leave_begun-Ready s l v here =
    let was : (k : String) (t : ModelAttemptStart)
        → lookup k (drop_key s.attempt_id l.begun) ≡ some t
        → lookup k l.begun ≡ some t =
      λ k t h. ground (arith, lookup-drop_key s.attempt_id k l.begun, h) in
    let none_left : lookup s.attempt_id (drop_key s.attempt_id l.begun) ≡ none = ground (
      arith,
      lookup-drop_key s.attempt_id s.attempt_id l.begun,
      eq_iff s.attempt_id s.attempt_id,
    ) in
    record {
      valid = record {
        next_from_one = v.next_from_one;
        at = v.at;
        below = v.below;
        first_once = v.first_once;
        chain = v.chain;
        begun_named = λ k t h. v.begun_named k t (was k t h);
        begun_new = λ k t h. v.begun_new k t (was k t h);
        begun_numbered = λ k t h. Numbered-same refl refl (v.begun_numbered k t (was k t h));
        begun_first = λ j k a t ha ht. v.begun_first j k a t ha (was k t ht);
        begun_once = λ j k t u ht hu. v.begun_once j k t u (was j t ht) (was k u hu);
      };
      unused = v.begun_new s.attempt_id s here;
      gone = none_left;
      numbered = Numbered-same refl refl (v.begun_numbered s.attempt_id s here);
      first_new = λ k a h i i' c. v.begun_first k s.attempt_id a s h here i i' c;
      begun_other = λ k t h i i' c.
          let same : s.attempt_id ≡ k = v.begun_once s.attempt_id k s t here (was k t h) i i' c in
          absurd (ground (arith, same, none_left, h));
    }

-- The journal alone grows.
journalled_Ready :
    (s : ModelAttemptStart) (l : RunUsageLedger) (rows : List Write)
    → Ready s l
    → Ready s (record l { journal = rows })
journalled_Ready s l rows y = record {
  valid = record {
    next_from_one = y.valid.next_from_one;
    at = y.valid.at;
    below = y.valid.below;
    first_once = y.valid.first_once;
    chain = y.valid.chain;
    begun_named = y.valid.begun_named;
    begun_new = y.valid.begun_new;
    begun_numbered = λ k t h. Numbered-same refl refl (y.valid.begun_numbered k t h);
    begun_first = y.valid.begun_first;
    begun_once = y.valid.begun_once;
  };
  unused = y.unused;
  gone = y.gone;
  numbered = Numbered-same refl refl y.numbered;
  first_new = y.first_new;
  begun_other = y.begun_other;
}

write_start-Ready :
    (s t : ModelAttemptStart) (m : RunUsageLedger) → Ready s m → Ready s (write_start t m).1
unfolding write_start
write_start-Ready s t m y = elim (Option-cases m.start_writer) [
  | inl e ↦ rw (e, write_start) y
  | inr (w, e) ↦ elim (Bool-cases (w t)) [
    | inl wrote ↦ rw (e, wrote, write_start) (journalled_Ready s m _ y)
    | inr failed ↦ rw (e, failed, write_start) y
  ]
]

-- The last step: the attempt is added if the start row was written.
admitted :
    (now : ℕ) (s : ModelAttemptStart) (r : Result LedgerError (Unit {0}) × RunUsageLedger)
    → Ready s r.1
    → IsValid (continue r.0 (λ _. add_attempt now s) r.1).1
admitted now s (ok _, m) y = add_attempt-IsValid now s m y
admitted now s (err _, m) y = y.valid

-- The rest of a call of `begin_attempt` keeps the ledger valid, whether it returns or raises.
pub start_attempt-IsValid :
    (now : ℕ) (s : ModelAttemptStart) (l : RunUsageLedger)
    → IsValid l
    → lookup s.attempt_id l.begun ≡ some s
    → IsValid (start_attempt now s l).1
unfolding start_attempt
start_attempt-IsValid now s l v here =
    admitted now s (write_start s (leave_begun s.attempt_id l))
      (write_start-Ready s s (leave_begun s.attempt_id l) (leave_begun-Ready s l v here))
