-- ===== src/Capabilities/Values.antt =====
-- Dicts of JSON values, as Tool arguments and event data hold them. The source looks into texts
-- and at null only, so any other JSON value is named by a number, equal numbers for equal values.
use work_assistant_agent.Prelude.{
  ℕ, Bool, true, false, ◌&&◌, String, Option, none, some, length, str_eq, ◌==◌, all,
}
use work_assistant_agent.Prelude.Dict.{Dict, lookup}

pub data Value : Type 0 where
  text : String → Value
  null : Value
  other : ℕ → Value

abbrev pub same_value : Value → Value → Bool
same_value (text s) (text t) = str_eq s t
same_value null null = true
same_value (other n) (other m) = n == m
same_value _ _ = false

abbrev pub Fields : Type 0
Fields = Dict Value

abbrev pub same_at : Option Value → Value → Bool
same_at none v = false
same_at (some w) v = same_value w v

-- `a == b` of two dicts: as many keys, and each key of the one with an equal value in the other.
unfoldable pub same_fields : Fields → Fields → Bool
same_fields a b = length a == length b && all (λ (e : String × Value). same_at (lookup e.0 b) e.1) a

-- `d.get(k)`, where it is a text
abbrev pub as_text : Option Value → Option String
as_text (some (text s)) = some s
as_text _ = none

unfoldable pub get_text : String → Fields → Option String
get_text k d = as_text (lookup k d)
