-- ===== src/Repository/Lives/Threads.antt =====
-- The constraints between the Runs of a thread: an idempotency key names one Run, and one Run at most
-- is active.
use work_assistant_agent.Prelude.{
  ◌≡◌, refl, sym, ap, ◌∙◌, inl, inr, Bool, true, false, String, some, List, [], ◌∷◌, any, arith,
  eq_iff,
}
use work_assistant_agent.Prelude.Dict.{Dict, lookup, insert, values, lookup-insert_cases}
use work_assistant_agent.Repository.Records.{RunStatus, is_active, RunRecord, Store, clashes}
use work_assistant_agent.Repository.Lives.{
  Life, starts, emits, completes, fails, cancels, Advance, Effect, quiet, creates, advances,
}
use work_assistant_agent.Repository.Lives.Log.{lookup-append}

-- Two Runs that clash are one.
abbrev pub IsExclusive : Store → Type 0
IsExclusive s =
    (i j : String) (r q : RunRecord)
    → lookup i s.runs ≡ some r
    → lookup j s.runs ≡ some q
    → clashes r q ≡ true
    → i ≡ j

-- Only an active Run goes on, and never from an end to an active state.
pub Life-from_active : {a b : RunStatus} {kinds : List String} → Life a b kinds → is_active a ≡ true
Life-from_active starts = refl
Life-from_active (emits _ _) = refl
Life-from_active completes = refl
Life-from_active (fails h) = h
Life-from_active (cancels h) = h

clashes_sym : (r q : RunRecord) → clashes r q ≡ true → clashes q r ≡ true
unfolding clashes
clashes_sym r q h = ground (
  arith,
  h,
  eq_iff q.thread_id r.thread_id,
  eq_iff r.thread_id q.thread_id,
  eq_iff q.idempotency_key r.idempotency_key,
  eq_iff r.idempotency_key q.idempotency_key,
)

any-lookup :
    (p : RunRecord → Bool) (j : String) (q : RunRecord) (d : Dict RunRecord)
    → any p (values d) ≡ false
    → lookup j d ≡ some q
    → p q ≡ false
unfolding lookup
any-lookup p j q [] h found = ground (arith, found)
any-lookup p j q ((k, r) ∷ d) h found = ground (arith, h, found, any-lookup p j q d)

-- What a row was before: the same thread and key, and active if it is active.
record CameFrom (k : String) (q : RunRecord) (runs : Dict RunRecord) : Type 0 where
  old : RunRecord
  found : lookup k runs ≡ some old
  same_thread : q.thread_id ≡ old.thread_id
  same_key : q.idempotency_key ≡ old.idempotency_key
  was_active : is_active q.status ≡ true → is_active old.status ≡ true

advanced-CameFrom :
    {id : String} {r r' : RunRecord} {rows : _} (runs : Dict RunRecord) (k : String) (q : RunRecord)
    → lookup id runs ≡ some r
    → Advance id r r' rows
    → lookup k (insert id r' runs) ≡ some q
    → CameFrom k q runs
advanced-CameFrom {id} {r} {r'} runs k q found a now =
    elim (lookup-insert_cases id k r' q runs now) [
      | inl (here, r'_is) ↦ record {
        old = r;
        found = rw (← here) found;
        same_thread = ap (λ (p : RunRecord). p.thread_id) (sym r'_is) ∙ a.same.same_thread;
        same_key = ap (λ (p : RunRecord). p.idempotency_key) (sym r'_is) ∙ a.same.same_key;
        was_active = λ _. Life-from_active a.life;
      }
      | inr (_, before) ↦ record {
        old = q;
        found = before;
        same_thread = refl;
        same_key = refl;
        was_active = λ active. active;
      }
    ]

clashed :
    {i j : String} {runs : Dict RunRecord} (r q : RunRecord) (a : CameFrom i r runs)
    (b : CameFrom j q runs)
    → clashes r q ≡ true
    → clashes a.old b.old ≡ true
unfolding clashes
clashed r q a b h =
    ground
      (arith, h, a.same_thread, b.same_thread, a.same_key, b.same_key, a.was_active, b.was_active)

pub Effect-IsExclusive : {s t : Store} → Effect s t → IsExclusive s → IsExclusive t
Effect-IsExclusive {s} (quiet runs_is _) h i j r q found_r found_q clash =
    h i j r q (rw runs_is at found_r) (rw runs_is at found_q) clash
Effect-IsExclusive {s} (creates id p new_key no_clash _ _ _ runs_is _) h i j r q found_r found_q
      clash =
    elim (lookup-append id i p r s.runs (rw runs_is at found_r)) [
      | inl old_r ↦ elim (lookup-append id j p q s.runs (rw runs_is at found_q)) [
        | inl old_q ↦ h i j r q old_r old_q clash
        | inr (_, _, p_is) ↦ absurd (
            ground (
              arith,
              any-lookup (clashes p) i r s.runs no_clash old_r,
              p_is,
              clashes_sym r q clash,
            ))
      ]
      | inr (_, here, p_is) ↦ elim (lookup-append id j p q s.runs (rw runs_is at found_q)) [
        | inl old_q ↦
            absurd (ground (arith, any-lookup (clashes p) j q s.runs no_clash old_q, p_is, clash))
        | inr (_, here', _) ↦ sym here ∙ here'
      ]
    ]
Effect-IsExclusive {s} (advances id p p' rows found a runs_is _) h i j r q found_r found_q clash =
    let from_r = advanced-CameFrom s.runs i r found a (rw runs_is at found_r) in
    let from_q = advanced-CameFrom s.runs j q found a (rw runs_is at found_q) in
    h i j from_r.old from_q.old from_r.found from_q.found (clashed r q from_r from_q clash)
