-- ===== src/Policy/Limits.antt =====
-- What the guards of `RunExecution` let through (backend/src/work_assistant/execution_policy.py):
-- model calls within the budget, and an end for a model that makes no progress.
use work_assistant_agent.Prelude.{
  ℕ, ◌+◌, ◌≤◌, ◌<◌, ◌≡◌, refl, List, [], ◌∷◌, arith, length, Result, ok, ◌>>◌, continue-eq-ok, ◌⊎◌,
  inl, inr, sym,
}
use work_assistant_agent.Policy.Violation.{PolicyViolation}
use work_assistant_agent.Policy.State.{RunConfig, RunExecution, Policy}
use work_assistant_agent.Policy.Steps.{before_model_call}

-- A model call is let through only before the deadline, it is counted, the count is within the
-- Agent's budget of model steps, the deadline stays, and the progress so far is noted.
pub before_model_call-within :
    (c : RunConfig) (now : ℕ) (s : RunExecution) {t : RunExecution}
    → before_model_call c now s ≡ (ok tt, t)
    → (now < s.deadline_at)
      × (t.model_steps ≡ s.model_steps + 1)
      × (t.model_steps ≤ c.agent.budget.max_model_steps)
      × (t.deadline_at ≡ s.deadline_at)
      × (t.last_model_progress_revision ≡ t.progress_revision)
unfolding before_model_call
before_model_call-within c now s h = ground arith

-- The calls of a model at the given times, with nothing between them that is progress.
abbrev pub spin : RunConfig → List ℕ → Policy (Unit {0})
spin c [] s = (ok tt, s)
spin c (now ∷ times) s = (before_model_call c now >> spin c times) s

first_of :
    {r : Result PolicyViolation (Unit {0}) × RunExecution} {n : RunExecution} (a : Unit {0})
    → r ≡ (ok a, n)
    → r ≡ (ok tt, n)
first_of a h = h

stalled_call :
    (c : RunConfig) (now : ℕ) (s : RunExecution) {t : RunExecution}
    → 0 < s.model_steps
    → s.progress_revision ≡ s.last_model_progress_revision
    → before_model_call c now s ≡ (ok tt, t)
    → (t.consecutive_no_progress ≡ s.consecutive_no_progress + 1)
      × (t.consecutive_no_progress < c.agent.budget.max_no_progress_steps)
unfolding before_model_call
stalled_call c now s p q h = ground arith

spin_stalled :
    (c : RunConfig) (times : List ℕ) (s : RunExecution) {t : RunExecution}
    → 0 < s.model_steps
    → s.progress_revision ≡ s.last_model_progress_revision
    → spin c times s ≡ (ok tt, t)
    → (length times ≡ 0)
      ⊎ (s.consecutive_no_progress + length times < c.agent.budget.max_no_progress_steps)
spin_stalled c [] s p q h = inl refl
spin_stalled c (now ∷ times) s p q h =
    let (a, n, first, rest) = continue-eq-ok (before_model_call c now s) (λ _. spin c times) h in
    let (_, step, _, _, last) = before_model_call-within c now s {t = n} (first_of a first) in
    let (one_more, under) = stalled_call c now s {t = n} p q (first_of a first) in
    elim (spin_stalled c times n (omega (arith, step)) (sym last) rest) [
      | inl none ↦ inr (omega (arith, one_more, under, none))
      | inr more ↦ inr (omega (arith, one_more, under, more))
    ]

-- A model that is called again and again without progress is stopped: at most as many of its calls
-- are let through in a row as the Agent's budget of steps without progress, where that is at least one.
pub spin-stops :
    (c : RunConfig) (times : List ℕ) (s : RunExecution) {t : RunExecution}
    → 1 ≤ c.agent.budget.max_no_progress_steps
    → spin c times s ≡ (ok tt, t)
    → length times ≤ c.agent.budget.max_no_progress_steps
spin-stops c [] s m h = omega arith
spin-stops c (now ∷ times) s m h =
    let (a, n, first, rest) = continue-eq-ok (before_model_call c now s) (λ _. spin c times) h in
    let (_, step, _, _, last) = before_model_call-within c now s {t = n} (first_of a first) in
    elim (spin_stalled c times n (omega (arith, step)) (sym last) rest) [
      | inl none ↦ omega (arith, m, none)
      | inr more ↦ omega (arith, more)
    ]
