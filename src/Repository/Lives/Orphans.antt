-- ===== src/Repository/Lives/Orphans.antt =====
-- The Runs that `fail_orphaned_runs` leaves active: none.
use work_assistant_agent.Prelude.{
  ℕ, ◌≡◌, ◌≢◌, refl, sym, ap, ◌∙◌, inl, inr, Bool, true, false, ◌||◌, String, Option, some, List,
  [], ◌∷◌, filter, any, ok, pure, arith, continue-eq-ok, str_eq, eq_iff, Bool-cases,
}
use work_assistant_agent.Prelude.Dict.{Dict, lookup, lookup-insert_cases}
use work_assistant_agent.Prelude.Sorting.{insert_by, sort_by}
use work_assistant_agent.Policy.Evidence.{ExecutionOutcomeEvidence}
use work_assistant_agent.Repository.Records.{
  RunStatus, is_active, RunRecord, Store, put_run, transaction,
}
use work_assistant_agent.Repository.Access.{require_available}
use work_assistant_agent.Repository.Transitions.{ended_run}
use work_assistant_agent.Repository.Recovery.{
  recovered_outcome, recovered_one, recover_run, recover_each, recover_all, candidates,
  fail_orphaned_runs,
}
use work_assistant_agent.Repository.Views.{RunView}
use work_assistant_agent.Repository.Lives.Queries.{
  reads-eq-ok, transaction-eq-ok, Updated, missed, hit, update_run-ended,
}
use work_assistant_agent.Repository.Lives.Sweep.{recovered_one-Ended}

any-insert_by :
    {A : Type 0} (p : A → Bool) (before : A → A → Bool) (x : A) (xs : List A)
    → any p (insert_by before x xs) ≡ (p x || any p xs)
unfolding insert_by
any-insert_by p before x [] = refl
any-insert_by p before x (y ∷ ys) = ground (arith, any-insert_by p before x ys)

any-sort_by :
    {A : Type 0} (p : A → Bool) (before : A → A → Bool) (xs : List A)
    → any p (sort_by before xs) ≡ any p xs
unfolding sort_by
any-sort_by p before [] = refl
any-sort_by p before (x ∷ xs) =
    any-insert_by p before x (sort_by before xs) ∙ ap (λ b. p x || b) (any-sort_by p before xs)

-- The row of a Run is among the rows.
abbrev has_row : String → List (String × RunRecord) → Bool
has_row j rows = any (λ (row : String × RunRecord). str_eq row.0 j) rows

has_row-filter :
    (j : String) (r : RunRecord) (d : Dict RunRecord)
    → lookup j d ≡ some r
    → is_active r.status ≡ true
    → has_row j (filter (λ (row : String × RunRecord). is_active row.1.status) d) ≡ true
unfolding lookup
has_row-filter j r [] found active = absurd (ground (arith, found))
has_row-filter j r ((i, q) ∷ d) found active = ground (arith, found, active, has_row-filter j r d)

candidates_complete :
    (j : String) (r : RunRecord) (s : Store)
    → lookup j s.runs ≡ some r
    → is_active r.status ≡ true
    → has_row j (candidates s) ≡ true
unfolding candidates
candidates_complete j r s found active =
    any-sort_by (λ (row : String × RunRecord). str_eq row.0 j) _ _
    ∙ has_row-filter j r s.runs found active

-- A Run that is active after the body of the loop.
abbrev Kept : (id j : String) (r : RunRecord) → Store → Type 0
Kept id j r s = (lookup j s.runs ≡ some r) × (id ≢ j)

recover_run-Kept :
    (uuid : String → String) (now : ℕ) (id : String) (candidate : RunRecord)
    (a : List (String × RunRecord)) (s u : Store) (j : String) (r : RunRecord)
    → recover_run uuid now id candidate s ≡ (ok a, u)
    → lookup j u.runs ≡ some r
    → is_active r.status ≡ true
    → Kept id j r s
unfolding recover_run put_run
recover_run-Kept uuid now id candidate a s u j r h found active =
    let (outcome, _, rest) = reads-eq-ok (recovered_outcome id candidate) _ s h in
    ended outcome (
      update_run-ended id (λ r. is_active r.status) (ended_run RunStatus.failed now 1 outcome)
        (pure []) (recovered_one uuid now id) s a u (λ b v v_is. sym (ap (λ x. x.1) v_is)) rest)
  where
    ended :
        (outcome : Option ExecutionOutcomeEvidence)
        → Updated id
            (λ r. is_active r.status)
            (ended_run RunStatus.failed now 1 outcome)
            (recovered_one uuid now id)
            s
            a
            u
        → Kept id j r s
    ended outcome (missed u_is none_fits) =
        let at_s : lookup j s.runs ≡ some r = rw (← u_is) found in
        (at_s, λ id_is. absurd (ground (arith, none_fits r (rw id_is at_s), active)))
    ended outcome (hit q _ _ h) =
        let (p, e) =
          recovered_one-Ended uuid now id (ended_run RunStatus.failed now 1 outcome q) a s.runs _ u
            refl h in
        elim (lookup-insert_cases id j p r s.runs (rw (← e.runs_is) found)) [
          | inr (other, at_s) ↦ (at_s, other)
          | inl (_, p_is) ↦
              let failed : is_active p.status ≡ false = rw e.run_is refl in
              absurd (ground (arith, failed, p_is, active))
        ]

recover_each-Kept :
    (uuid : String → String) (now : ℕ) (rows a : List (String × RunRecord)) (s u : Store)
    (j : String) (r : RunRecord)
    → recover_each uuid now rows s ≡ (ok a, u)
    → lookup j u.runs ≡ some r
    → is_active r.status ≡ true
    → (lookup j s.runs ≡ some r) × (has_row j rows ≡ false)
unfolding recover_each
recover_each-Kept uuid now [] a s u j r h found active =
    let u_is : u ≡ s = sym (ap (λ x. x.1) h) in (rw (← u_is) found, refl)
recover_each-Kept uuid now ((id, candidate) ∷ rows) a s u j r h found active =
    let (first, v, one, rest) = continue-eq-ok (recover_run uuid now id candidate s) _ h in
    let (others, w, more, rest) = continue-eq-ok (recover_each uuid now rows v) _ rest in
    let u_is : u ≡ w = sym (ap (λ x. x.1) rest) in
    let (at_v, not_later) =
      recover_each-Kept uuid now rows others v w j r more (rw (← u_is) found) active in
    let (at_s, other) = recover_run-Kept uuid now id candidate first s v j r one at_v active in
    (at_s, ground (arith, eq_iff id j, other, not_later))

-- When `fail_orphaned_runs` succeeds, no Run is active any more: every Run that a previous process
-- had left created or running has reached a final status.
pub fail_orphaned_runs_complete :
    (uuid : String → String) (now : ℕ) (s u : Store) (views : List RunView) (j : String)
    (r : RunRecord)
    → fail_orphaned_runs uuid now s ≡ (ok views, u)
    → lookup j u.runs ≡ some r
    → is_active r.status ≡ false
unfolding fail_orphaned_runs recover_all
fail_orphaned_runs_complete uuid now s u views j r h found =
    elim (Bool-cases (is_active r.status)) [
      | inr final ↦ final
      | inl active ↦
          let (_, _, rest) = reads-eq-ok require_available _ s h in
          let (a, v, swept, rest) = continue-eq-ok (transaction (recover_all uuid now) s) _ rest in
          let u_is : u ≡ v = sym (ap (λ x. x.1) rest) in
          let (at_s, absent) =
            recover_each-Kept uuid now (candidates s) a s v j r
              (transaction-eq-ok (recover_all uuid now) s a v swept) (rw (← u_is) found) active in
          absurd (ground (arith, absent, candidates_complete j r s at_s active))
    ]
