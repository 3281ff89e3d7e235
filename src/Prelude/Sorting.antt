-- ===== src/Prelude/Sorting.antt =====
-- `sorted(xs, key=...)` and `ORDER BY`: a stable insertion sort by a test for "not after".
use mathlib.Core.Path.{◌≡◌, refl}
use mathlib.Core.Bool.{Bool, true, ◌&&◌}
use mathlib.Core.List.{List, [], ◌∷◌}
use native.Mathlib.Omega.{arith}
use work_assistant_agent.Prelude.Tests.{if◌then◌else◌}

module _ {ℓ} {A : Type ℓ} where
  unfoldable pub insert_by : (A → A → Bool) → A → List A → List A
  insert_by before x [] = x ∷ []
  insert_by before x (y ∷ ys) = if before x y then x ∷ y ∷ ys else y ∷ insert_by before x ys

  unfoldable pub sort_by : (A → A → Bool) → List A → List A
  unfolding insert_by
  sort_by before [] = []
  sort_by before (x ∷ xs) = insert_by before x (sort_by before xs)

  -- Each element is not after the next one.
  abbrev pub is_ordered : (A → A → Bool) → List A → Bool
  is_ordered before [] = true
  is_ordered before (x ∷ []) = true
  is_ordered before (x ∷ y ∷ ys) = before x y && is_ordered before (y ∷ ys)

  insert_by_first :
      (before : A → A → Bool) (x : A) (xs : List A)
      → is_ordered before (x ∷ xs) ≡ true
      → insert_by before x xs ≡ x ∷ xs
  unfolding insert_by
  insert_by_first before x [] h = refl
  insert_by_first before x (y ∷ ys) h = ground arith

  pub sort_by_ordered :
      (before : A → A → Bool) (xs : List A) → is_ordered before xs ≡ true → sort_by before xs ≡ xs
  unfolding sort_by
  sort_by_ordered before [] h = refl
  sort_by_ordered before (x ∷ []) h = refl
  sort_by_ordered before (x ∷ y ∷ ys) h =
      rw (sort_by_ordered before (y ∷ ys) (ground arith)) (insert_by_first before x (y ∷ ys) h)
