-- ===== src/Usage/Metric/Compose.antt =====
-- Aggregates of parts: the account view may add up Runs in any grouping.
use work_assistant_agent.Prelude.{◌+◌, ◌≡◌, refl, true, ◌||◌, ◌&&◌, List, [], ◌∷◌, ◌++◌, ok, arith}
use work_assistant_agent.Usage.Metric.{
  UsageAvailability, complete, partial, unknown, pending, UsageMetric, same_availability,
  value_or_zero, has_state, all_complete, total_value, aggregate_usage_metrics,
}

has_state-append :
    (a : UsageAvailability) (xs ys : List UsageMetric)
    → has_state a (xs ++ ys) ≡ (has_state a xs || has_state a ys)
unfolding has_state
has_state-append a [] ys = refl
has_state-append a (x ∷ xs) ys = ground (arith, has_state-append a xs ys)

all_complete-append :
    (xs ys : List UsageMetric) → all_complete (xs ++ ys) ≡ (all_complete xs && all_complete ys)
unfolding all_complete
all_complete-append [] ys = refl
all_complete-append (x ∷ xs) ys = ground (arith, all_complete-append xs ys)

total_value-append :
    (xs ys : List UsageMetric) → total_value (xs ++ ys) ≡ total_value xs + total_value ys
unfolding total_value
total_value-append [] ys = omega arith
total_value-append (x ∷ xs) ys = omega (arith, total_value-append xs ys)

has_complete :
    (x : UsageMetric) (xs : List UsageMetric)
    → all_complete (x ∷ xs) ≡ true
    → has_state complete (x ∷ xs) ≡ true
unfolding has_state all_complete
has_complete x xs h = ground arith

has_state_pair :
    (s : UsageAvailability) (a b : UsageMetric)
    → has_state s (a ∷ b ∷ [])
      ≡ (same_availability s a.availability || same_availability s b.availability)
unfolding has_state
has_state_pair s a b = ground arith

all_complete_pair :
    (a b : UsageMetric)
    → all_complete (a ∷ b ∷ [])
      ≡ (same_availability complete a.availability && same_availability complete b.availability)
unfolding all_complete
all_complete_pair a b = ground arith

total_value_pair :
    (a b : UsageMetric) → total_value (a ∷ b ∷ []) ≡ value_or_zero a + value_or_zero b
unfolding total_value
total_value_pair a b = omega arith

-- Aggregating two groups that are not empty, and then the two results, gives what aggregating all
-- of their metrics at once gives: no grouping hides an unknown, a pending or a missing figure, and
-- a total is the total of the totals.
pub aggregate_usage_metrics-append :
    (x y : UsageMetric) (xs ys : List UsageMetric) {a b : UsageMetric}
    → aggregate_usage_metrics (x ∷ xs) ≡ ok a
    → aggregate_usage_metrics (y ∷ ys) ≡ ok b
    → aggregate_usage_metrics ((x ∷ xs) ++ (y ∷ ys)) ≡ aggregate_usage_metrics (a ∷ b ∷ [])
unfolding aggregate_usage_metrics
aggregate_usage_metrics-append x y xs ys {a} {b} ha hb = ground (
  arith,
  has_state-append unknown (x ∷ xs) (y ∷ ys),
  has_state-append pending (x ∷ xs) (y ∷ ys),
  has_state-append complete (x ∷ xs) (y ∷ ys),
  has_state-append partial (x ∷ xs) (y ∷ ys),
  all_complete-append (x ∷ xs) (y ∷ ys),
  total_value-append (x ∷ xs) (y ∷ ys),
  has_complete x xs,
  has_complete y ys,
  has_state_pair unknown a b,
  has_state_pair pending a b,
  has_state_pair complete a b,
  has_state_pair partial a b,
  all_complete_pair a b,
  total_value_pair a b,
)
