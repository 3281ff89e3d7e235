-- ===== src/Prelude/Dict.antt =====
-- A Python dict keyed by texts, in order of insertion. An assignment to a key that is there keeps
-- its place.
use Prim.Native.Nat.{suc, ◌≤◌}
use Prim.Native.String.{String}
use mathlib.Core.Path.{◌≡◌, refl, ap}
use mathlib.Core.Logic.{◌⊎◌, ◌≢◌, inl, inr}
use mathlib.Core.Bool.{true, false}
use mathlib.Core.Bool.{Bool}
use mathlib.Core.List.{List, [], ◌∷◌, ◌++◌}
use mathlib.Core.Option.{Option, none, some}
use native.Mathlib.Omega.{arith}
use text.Mathlib.TextEquality.{eq_iff}
use work_assistant_agent.Prelude.Tests.{str_eq, if◌then◌else◌, is_some, Bool-cases}
use work_assistant_agent.Prelude.Lists.{length, contains, All}

abbrev pub Dict {ℓ} : Type ℓ → Type ℓ
Dict V = List (String × V)

module _ {ℓ} {V : Type ℓ} where
  -- `d.get(k)`
  unfoldable pub lookup : String → Dict V → Option V
  lookup k [] = none
  lookup k ((j, v) ∷ d) = if str_eq j k then some v else lookup k d

  -- `d[k] = v`
  unfoldable pub insert : String → V → Dict V → Dict V
  insert k v [] = (k, v) ∷ []
  insert k v ((j, w) ∷ d) = if str_eq j k then (j, v) ∷ d else (j, w) ∷ insert k v d

  -- `d.pop(k, None)`
  unfoldable pub drop_key : String → Dict V → Dict V
  drop_key k [] = []
  drop_key k ((j, w) ∷ d) = let rest = drop_key k d in if str_eq j k then rest else (j, w) ∷ rest

  pub lookup-drop_key :
      (k j : String) (d : Dict V)
      → lookup j (drop_key k d) ≡ (if str_eq k j then none else lookup j d)
  unfolding lookup drop_key
  lookup-drop_key k j [] = ground arith
  lookup-drop_key k j ((i, w) ∷ d) =
      ground (arith, eq_iff k j, eq_iff i k, eq_iff i j, lookup-drop_key k j d)

  abbrev pub keys : Dict V → List String
  keys [] = []
  keys ((j, _) ∷ d) = j ∷ keys d

  abbrev pub values : Dict V → List V
  values [] = []
  values ((_, v) ∷ d) = v ∷ values d

  abbrev pub has_key : String → Dict V → Bool
  has_key k d = is_some (lookup k d)

  pub lookup-insert :
      (k j : String) (v : V) (d : Dict V)
      → lookup j (insert k v d) ≡ (if str_eq k j then some v else lookup j d)
  unfolding lookup insert
  lookup-insert k j v [] = refl
  lookup-insert k j v ((i, w) ∷ d) =
      ground (arith, eq_iff k j, eq_iff i k, eq_iff i j, lookup-insert k j v d)

  pub length-insert : (k : String) (v : V) (d : Dict V) → length (insert k v d) ≤ suc (length d)
  unfolding insert
  length-insert k v [] = omega arith
  length-insert k v ((i, w) ∷ d) = ground (arith, length-insert k v d)

  pub length-insert_old :
      (k : String) (v w : V) (d : Dict V) → lookup k d ≡ some w → length (insert k v d) ≡ length d
  unfolding lookup insert
  length-insert_old k v w [] h = ground arith
  length-insert_old k v w ((i, u) ∷ d) h = ground (arith, length-insert_old k v w d)

  pub contains-keys : (k : String) (d : Dict V) → contains k (keys d) ≡ has_key k d
  unfolding lookup
  contains-keys k [] = refl
  contains-keys k ((i, u) ∷ d) = ground (arith, contains-keys k d)

  -- What stands at a key after an assignment is what was assigned, or what stood there before.
  pub lookup-insert_cases :
      (id k : String) (b x : V) (d : Dict V)
      → lookup k (insert id b d) ≡ some x
      → ((id ≡ k) × (b ≡ x)) ⊎ ((id ≢ k) × (lookup k d ≡ some x))
  lookup-insert_cases id k b x d h = elim (Bool-cases (str_eq id k)) [
    | inl same ↦ inl ((eq_iff id k).0 same, ground (arith, lookup-insert id k b d))
    | inr other ↦ inr (ground (arith, eq_iff id k), ground (arith, lookup-insert id k b d))
  ]

  -- An assignment to a new key goes to the end.
  pub keys-insert_new :
      (k : String) (v : V) (d : Dict V)
      → has_key k d ≡ false
      → keys (insert k v d) ≡ keys d ++ k ∷ []
  unfolding lookup insert
  keys-insert_new k v [] h = refl
  keys-insert_new k v ((j, w) ∷ d) h = ground (arith, keys-insert_new k v d)

  pub keys-insert_old :
      (k : String) (v : V) (d : Dict V) → has_key k d ≡ true → keys (insert k v d) ≡ keys d
  unfolding lookup insert
  keys-insert_old k v [] h = cc
  keys-insert_old k v ((j, w) ∷ d) h = ground (arith, keys-insert_old k v d)

  pub All-insert {κ} :
      (P : String × V → Type κ) (k : String) (v : V) (d : Dict V)
      → All P d
      → ((j : String) → j ≡ k → P (j, v))
      → All P (insert k v d)
  unfolding insert
  All-insert P k v [] h p = (p k refl, tt)
  All-insert P k v ((j, w) ∷ d) h p = elim (Bool-cases (str_eq j k)) [
    | inl same ↦ rw (same, insert) (p j ((eq_iff j k).0 same), h.1)
    | inr other ↦ rw (other, insert) (h.0, All-insert P k v d h.1 p)
  ]

  pub length-keys : (d : Dict V) → length (keys d) ≡ length d
  length-keys [] = refl
  length-keys ((_, _) ∷ d) = ap suc (length-keys d)

  pub length-insert_new :
      (k : String) (v : V) (d : Dict V)
      → has_key k d ≡ false
      → length (insert k v d) ≡ suc (length d)
  unfolding lookup insert
  length-insert_new k v [] h = refl
  length-insert_new k v ((j, w) ∷ d) h = ground (arith, length-insert_new k v d)
