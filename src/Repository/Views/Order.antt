-- ===== src/Repository/Views/Order.antt =====
-- The figures of the attempts do not depend on the order in which they come.
use work_assistant_agent.Prelude.{
  ℕ, suc, ◌≡◌, refl, ap, ◌∙◌, Bool, Option, none, some, List, [], ◌∷◌, length, filter, map, sum,
  arith, ◌==◌, if◌then◌else◌,
}
use work_assistant_agent.Prelude.Sorting.{insert_by, sort_by}
use work_assistant_agent.Usage.Metric.{build_metric, complete, partial, unavailable}
use work_assistant_agent.Usage.Run.{ProviderTokenUsage}
use work_assistant_agent.Usage.Snapshot.{known, metric_of}
use work_assistant_agent.Repository.Records.{ModelAttemptRecord}
use work_assistant_agent.Repository.Views.{attempt_token_metric}

-- What the figure of a column depends on.
pub metric_of-eq :
    (v w : List (Option ℕ))
    → length v ≡ length w
    → length (known v) ≡ length (known w)
    → sum (known v) ≡ sum (known w)
    → metric_of v ≡ metric_of w
unfolding metric_of
metric_of-eq v w h k s = split (known v) (known w) k s
  where
    split :
        (x y : List ℕ)
        → length x ≡ length y
        → sum x ≡ sum y
        → (if length x == length v
            then build_metric (some (sum x)) complete
            else elim x [ [] ↦ build_metric none unavailable | _ ∷ _ ↦ build_metric none partial ])
          ≡ (if length y == length w then build_metric (some (sum y)) complete else elim y [
            | [] ↦ build_metric none unavailable
            | _ ∷ _ ↦ build_metric none partial
          ])
    split [] [] k s = rw h refl
    split [] (_ ∷ _) k s = absurd (ground (arith, k))
    split (_ ∷ _) [] k s = absurd (ground (arith, k))
    split (a ∷ x) (b ∷ y) k s = rw (h, k, s) refl

module _ {A : Type 0} (before : A → A → Bool) where
  module _ (keep : A → Bool) where
    length-filter-insert_by :
        (x : A) (xs : List A)
        → length (filter keep (insert_by before x xs)) ≡ length (filter keep (x ∷ xs))
    unfolding insert_by
    length-filter-insert_by x [] = refl
    length-filter-insert_by x (y ∷ ys) = ground (arith, length-filter-insert_by x ys)

    pub length-filter-sort_by :
        (xs : List A) → length (filter keep (sort_by before xs)) ≡ length (filter keep xs)
    unfolding sort_by
    length-filter-sort_by [] = refl
    length-filter-sort_by (x ∷ xs) =
        length-filter-insert_by x (sort_by before xs) ∙ ground (arith, length-filter-sort_by xs)

  length-insert_by : (x : A) (xs : List A) → length (insert_by before x xs) ≡ suc (length xs)
  unfolding insert_by
  length-insert_by x [] = refl
  length-insert_by x (y ∷ ys) = ground (arith, length-insert_by x ys)

  pub length-sort_by : (xs : List A) → length (sort_by before xs) ≡ length xs
  unfolding sort_by
  length-sort_by [] = refl
  length-sort_by (x ∷ xs) = length-insert_by x (sort_by before xs) ∙ ap suc (length-sort_by xs)

  module _ (f : A → Option ℕ) where
    known-insert_by :
        (x : A) (xs : List A)
        → (length (known (map f (insert_by before x xs))) ≡ length (known (map f (x ∷ xs))))
          × (sum (known (map f (insert_by before x xs))) ≡ sum (known (map f (x ∷ xs))))
    unfolding insert_by
    known-insert_by x [] = (refl, refl)
    known-insert_by x (y ∷ ys) =
        let (n, s) = known-insert_by x ys in (ground (arith, n), ground (arith, s))

    known-cons :
        (x : A) (xs ys : List A)
        → length (known (map f xs)) ≡ length (known (map f ys))
        → sum (known (map f xs)) ≡ sum (known (map f ys))
        → (length (known (map f (x ∷ xs))) ≡ length (known (map f (x ∷ ys))))
          × (sum (known (map f (x ∷ xs))) ≡ sum (known (map f (x ∷ ys))))
    known-cons x xs ys n s = (ground (arith, n), ground (arith, s))

    pub known-sort_by :
        (xs : List A)
        → (length (known (map f (sort_by before xs))) ≡ length (known (map f xs)))
          × (sum (known (map f (sort_by before xs))) ≡ sum (known (map f xs)))
    unfolding sort_by
    known-sort_by [] = (refl, refl)
    known-sort_by (x ∷ xs) =
        let (n, s) = known-insert_by x (sort_by before xs) in
        let (m, t) = known-sort_by xs in
        let (k, u) = known-cons x (sort_by before xs) xs m t in (n ∙ k, s ∙ u)

pub length-map : {A B : Type 0} (f : A → B) (xs : List A) → length (map f xs) ≡ length xs
length-map f [] = refl
length-map f (x ∷ xs) = ap suc (length-map f xs)

pub attempt_token_metric-eq :
    (field : ProviderTokenUsage → Option ℕ) (rows : List ModelAttemptRecord)
    → attempt_token_metric field rows
      ≡ metric_of (map (λ (b : ModelAttemptRecord). field b.tokens) rows)
unfolding attempt_token_metric metric_of
attempt_token_metric-eq field [] = refl
attempt_token_metric-eq field (a ∷ rows) = refl
