-- ===== src/Schemas/Fields.antt =====
-- Strict payloads of texts, as pydantic validates them: each field has a size, an optional field may
-- be missing or null and is left out then, and no other key is allowed
-- (backend/src/work_assistant/schemas.py).
pub mod Stable
use work_assistant_agent.Prelude.{
  ℕ, Bool, true, false, ◌&&◌, String, Option, none, some, List, [], ◌∷◌, all, map, contains, leb,
  if◌then◌else◌,
}
use work_assistant_agent.Prelude.Dict.{Dict, lookup}
use work_assistant_agent.Prelude.Names.{text_length}
use work_assistant_agent.Capabilities.Values.{Value, text, null, other, Fields}

-- `Field(min_length=least, max_length=most)`
pub record FieldRule : Type 0 where
  pub key : String
  pub least : ℕ
  pub most : ℕ
  pub is_required : Bool

abbrev pub rule_keys : List FieldRule → List String
rule_keys rules = map (λ (r : FieldRule). r.key) rules

pub data Read : Type 0 where
  kept : String → Read
  left_out bad : Read

abbrev pub unless_required : FieldRule → Read
unless_required r = if r.is_required then bad else left_out

-- The value of one field.
unfoldable pub read_field : FieldRule → Option Value → Read
read_field r none = unless_required r
read_field r (some null) = unless_required r
read_field r (some (other n)) = bad
read_field r (some (text s)) =
    if leb r.least (text_length s) && leb (text_length s) r.most then kept s else bad

abbrev pub keep_field : String → Read → Option Fields → Option Fields
keep_field k bad rest = none
keep_field k left_out rest = rest
keep_field k (kept s) none = none
keep_field k (kept s) (some rest) = some ((k, text s) ∷ rest)

unfoldable pub read_fields : List FieldRule → Fields → Option Fields
unfolding read_field
read_fields [] d = some []
read_fields (r ∷ rules) d = keep_field r.key (read_field r (lookup r.key d)) (read_fields rules d)

-- `extra="forbid"`
unfoldable pub no_extra : List FieldRule → Fields → Bool
no_extra rules d = all (λ (e : String × Value). contains e.0 (rule_keys rules)) d

-- `model_validate(d).model_dump(mode="json", exclude_none=True)`
unfoldable pub validate_fields : List FieldRule → Fields → Option Fields
unfolding no_extra read_fields
validate_fields rules d = if no_extra rules d then read_fields rules d else none
