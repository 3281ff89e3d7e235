-- ===== src/Prelude/Lists.antt =====
-- Lists measured by native numbers, and Python's sets of texts as lists.
use Prim.Native.Nat.{ℕ, zero, suc, ◌+◌, ◌≤◌}
use Prim.Native.String.{String}
use mathlib.Core.Path.{◌≡◌, refl}
use mathlib.Core.Bool.{Bool, true, false, ◌&&◌, ◌||◌, not}
use mathlib.Core.List.{List, [], ◌∷◌, ◌++◌}
use native.Mathlib.Omega.{arith}
use text.Mathlib.TextEquality.{eq_iff}
use work_assistant_agent.Prelude.Tests.{str_eq, if◌then◌else◌}

module _ {ℓ} {A : Type ℓ} where
  abbrev pub length : List A → ℕ
  length [] = 0
  length (x ∷ xs) = suc (length xs)

  pub length-append : (xs ys : List A) → length (xs ++ ys) ≡ length xs + length ys
  length-append [] ys = omega arith
  length-append (x ∷ xs) ys = omega (arith, length-append xs ys)

  abbrev pub take : ℕ → List A → List A
  take zero xs = []
  take (suc n) [] = []
  take (suc n) (x ∷ xs) = x ∷ take n xs

  abbrev pub drop : ℕ → List A → List A
  drop zero xs = xs
  drop (suc n) [] = []
  drop (suc n) (x ∷ xs) = drop n xs

  -- `any(...)` and `all(...)`
  abbrev pub any : (A → Bool) → List A → Bool
  any p [] = false
  any p (x ∷ xs) = p x || any p xs

  abbrev pub all : (A → Bool) → List A → Bool
  all p [] = true
  all p (x ∷ xs) = p x && all p xs

  -- A comprehension with a condition.
  abbrev pub filter : (A → Bool) → List A → List A
  filter p [] = []
  filter p (x ∷ xs) = if p x then x ∷ filter p xs else filter p xs

  pub length-filter : (p : A → Bool) (xs : List A) → length (filter p xs) ≤ length xs
  length-filter p [] = omega arith
  length-filter p (x ∷ xs) = ground (arith, length-filter p xs)

  -- A predicate of every element.
  abbrev pub All {κ} : (A → Type κ) → List A → Type κ
  All P [] = Unit
  All P (x ∷ xs) = P x × All P xs

  pub All-append {κ} : (P : A → Type κ) (xs ys : List A) → All P xs → All P ys → All P (xs ++ ys)
  All-append P [] ys hx hy = hy
  All-append P (x ∷ xs) ys hx hy = (hx.0, All-append P xs ys hx.1 hy)

abbrev pub sum : List ℕ → ℕ
sum [] = 0
sum (x ∷ xs) = x + sum xs

-- `x in s`
abbrev pub contains : String → List String → Bool
contains x [] = false
contains x (y ∷ ys) = str_eq y x || contains x ys

-- `s.add(x)`, in order of insertion
abbrev pub add : String → List String → List String
add x ys = if contains x ys then ys else ys ++ x ∷ []

-- `len(s) == len(set(s))`
abbrev pub is_unique : List String → Bool
is_unique [] = true
is_unique (x ∷ xs) = not (contains x xs) && is_unique xs

-- `set(xs).issubset(ys)`
abbrev pub is_subset : List String → List String → Bool
is_subset xs ys = all (λ x. contains x ys) xs

pub contains-append :
    (x : String) (xs ys : List String) → contains x (xs ++ ys) ≡ (contains x xs || contains x ys)
contains-append x [] ys = refl
contains-append x (y ∷ xs) ys = ground (arith, contains-append x xs ys)

pub contains-add :
    (x y : String) (ys : List String) → contains x (add y ys) ≡ (contains x ys || str_eq y x)
contains-add x y ys = ground (arith, contains-append x ys (y ∷ []), eq_iff y x)

pub length-add : (y : String) (ys : List String) → length (add y ys) ≤ suc (length ys)
length-add y ys = ground (arith, length-append ys (y ∷ []))

pub is_unique-snoc :
    (x : String) (xs : List String)
    → is_unique xs ≡ true
    → contains x xs ≡ false
    → is_unique (xs ++ x ∷ []) ≡ true
is_unique-snoc x [] u n = refl
is_unique-snoc x (y ∷ xs) u n =
    ground (arith, is_unique-snoc x xs, contains-append y xs (x ∷ []), eq_iff y x, eq_iff x y)

-- `l` without the first `x`.
abbrev pub without : String → List String → List String
without x [] = []
without x (y ∷ ys) = if str_eq y x then ys else y ∷ without x ys

length-without :
    (x : String) (ys : List String) → contains x ys ≡ true → length ys ≡ suc (length (without x ys))
length-without x [] h = cc
length-without x (y ∷ ys) h = ground (arith, length-without x ys)

contains-without :
    (z x : String) (ys : List String)
    → str_eq x z ≡ false
    → contains z ys ≡ true
    → contains z (without x ys) ≡ true
contains-without z x [] n h = cc
contains-without z x (y ∷ ys) n h =
    ground (arith, contains-without z x ys, eq_iff y z, eq_iff y x, eq_iff x z)

subset-without :
    (x : String) (xs ys : List String)
    → contains x xs ≡ false
    → is_subset xs ys ≡ true
    → is_subset xs (without x ys) ≡ true
subset-without x [] ys n h = refl
subset-without x (z ∷ xs) ys n h =
    ground (arith, contains-without z x ys, subset-without x xs ys, eq_iff x z, eq_iff z x)

-- A list without repetition is at most as long as one that holds all of its elements.
pub length-le_of_subset :
    (xs ys : List String) → is_unique xs ≡ true → is_subset xs ys ≡ true → length xs ≤ length ys
length-le_of_subset [] ys u h = omega arith
length-le_of_subset (x ∷ xs) ys u h =
    ground
      (arith, length-le_of_subset xs (without x ys), subset-without x xs ys, length-without x ys)
