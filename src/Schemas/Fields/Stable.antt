-- ===== src/Schemas/Fields/Stable.antt =====
-- A validated payload is one that validates to itself.
use work_assistant_agent.Prelude.{
  ◌≡◌, ◌⊎◌, refl, true, false, String, Option, none, some, List, [], ◌∷◌, arith, contains,
  is_unique, eq_iff, Option-cases, inl, inr,
}
use work_assistant_agent.Prelude.Dict.{lookup}
use work_assistant_agent.Capabilities.Values.{Value, text, null, other, Fields}
use work_assistant_agent.Schemas.Fields.{
  FieldRule, Read, kept, left_out, bad, read_field, read_fields, no_extra, validate_fields,
  rule_keys,
}

-- A key without a rule does not matter.
read_fields-other :
    (rules : List FieldRule) (k : String) (v : Value) (d : Fields)
    → contains k (rule_keys rules) ≡ false
    → read_fields rules ((k, v) ∷ d) ≡ read_fields rules d
unfolding read_fields lookup
read_fields-other [] k v d n = refl
read_fields-other (r ∷ rules) k v d n =
    ground (arith, read_fields-other rules k v d, eq_iff k r.key, eq_iff r.key k)

-- How a field was read.
data ReadAs (r : FieldRule) (rules : List FieldRule) (d e : Fields) : Type 0 where
  was_left :
      read_field r (lookup r.key d) ≡ left_out
      → r.is_required ≡ false
      → read_fields rules d ≡ some e
      → ReadAs r rules d e
  was_kept :
      (s : String) (rest : Fields)
      → read_field r (some (text s)) ≡ kept s
      → read_fields rules d ≡ some rest
      → e ≡ (r.key, text s) ∷ rest
      → ReadAs r rules d e

read_field-kept :
    (r : FieldRule) (v : Option Value) (s : String)
    → read_field r v ≡ kept s
    → read_field r (some (text s)) ≡ kept s
unfolding read_field
read_field-kept r none s h = ground arith
read_field-kept r (some null) s h = ground arith
read_field-kept r (some (other n)) s h = ground arith
read_field-kept r (some (text t)) s h = ground arith

read_field-left :
    (r : FieldRule) (v : Option Value) → read_field r v ≡ left_out → r.is_required ≡ false
unfolding read_field
read_field-left r none h = ground arith
read_field-left r (some null) h = ground arith
read_field-left r (some (other n)) h = ground arith
read_field-left r (some (text t)) h = ground arith

Read-cases : (x : Read) → (x ≡ bad) ⊎ ((x ≡ left_out) ⊎ ((s : String) × (x ≡ kept s)))
Read-cases bad = inl refl
Read-cases left_out = inr (inl refl)
Read-cases (kept s) = inr (inr (s, refl))

read_fields-ReadAs :
    (r : FieldRule) (rules : List FieldRule) (d e : Fields)
    → read_fields (r ∷ rules) d ≡ some e
    → ReadAs r rules d e
unfolding read_fields
read_fields-ReadAs r rules d e h = elim (Read-cases (read_field r (lookup r.key d))) [
  | inl refused ↦ absurd (ground arith)
  | inr (inl left) ↦ was_left left (read_field-left r _ left) (ground arith)
  | inr (inr (s, here)) ↦ elim (Option-cases (read_fields rules d)) [
    | inl none_left ↦ absurd (ground arith)
    | inr (rest, more) ↦ was_kept s rest (read_field-kept r _ s here) more (ground arith)
  ]
]

-- What was read has no other key.
read_fields-keys :
    (rules : List FieldRule) (d e : Fields) (k : String)
    → read_fields rules d ≡ some e
    → contains k (rule_keys rules) ≡ false
    → lookup k e ≡ none
unfolding read_fields lookup
read_fields-keys [] d e k h n = ground arith
read_fields-keys (r ∷ rules) d e k h n = elim (read_fields-ReadAs r rules d e h) [
  | was_left _ _ more ↦ read_fields-keys rules d e k more (ground arith)
  | was_kept s rest _ more e_is ↦ rw e_is (ground (arith, read_fields-keys rules d rest k more))
]

read_fields-stable :
    (rules : List FieldRule) (d e : Fields)
    → is_unique (rule_keys rules) ≡ true
    → read_fields rules d ≡ some e
    → read_fields rules e ≡ some e
unfolding read_fields lookup
read_fields-stable [] d e u h = ground arith
read_fields-stable (r ∷ rules) d e u h = elim (read_fields-ReadAs r rules d e h) [
  | was_left _ optional more ↦
      ground (arith, read_fields-stable rules d e, read_fields-keys rules d e r.key)
  | was_kept s rest here more e_is ↦ rw e_is (
      ground (
        arith,
        read_fields-stable rules d rest,
        read_fields-other rules r.key (text s) rest,
        here,
        eq_iff r.key r.key,
      ))
]

no_extra-cons :
    (r : FieldRule) (rules : List FieldRule) (d : Fields)
    → no_extra rules d ≡ true
    → no_extra (r ∷ rules) d ≡ true
unfolding no_extra
no_extra-cons r rules [] h = refl
no_extra-cons r rules ((k, v) ∷ d) h = ground (arith, no_extra-cons r rules d)

read_fields-no_extra :
    (rules : List FieldRule) (d e : Fields) → read_fields rules d ≡ some e → no_extra rules e ≡ true
unfolding read_fields
read_fields-no_extra [] d e h = unfold no_extra in ground arith
read_fields-no_extra (r ∷ rules) d e h = elim (read_fields-ReadAs r rules d e h) [
  | was_left _ _ more ↦ no_extra-cons r rules e (read_fields-no_extra rules d e more)
  | was_kept s rest _ more e_is ↦ rw e_is (
      kept_key r rules s rest (no_extra-cons r rules rest (read_fields-no_extra rules d rest more)))
]
  where
    kept_key :
        (r : FieldRule) (rules : List FieldRule) (s : String) (rest : Fields)
        → no_extra (r ∷ rules) rest ≡ true
        → no_extra (r ∷ rules) ((r.key, text s) ∷ rest) ≡ true
    kept_key r rules s rest h = unfold no_extra in ground (arith, eq_iff r.key r.key, h)

pub validate_fields-stable :
    (rules : List FieldRule) (d e : Fields)
    → is_unique (rule_keys rules) ≡ true
    → validate_fields rules d ≡ some e
    → validate_fields rules e ≡ some e
unfolding validate_fields
validate_fields-stable rules d e u h =
    let read : read_fields rules d ≡ some e = ground arith in
    ground (arith, read_fields-stable rules d e u read, read_fields-no_extra rules d e read)
