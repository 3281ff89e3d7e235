-- ===== src/Agents/Pattern.antt =====
-- `IDENTIFIER_PATTERN` and `VERSION_PATTERN` of backend/src/work_assistant/agent_definition.py, as
-- the automata of the two expressions.
pub mod Grammar
pub mod Length
use work_assistant_agent.Prelude.{
  ℕ, ◌+◌, ◌≡◌, refl, Bool, true, false, ◌||◌, ◌&&◌, String, Option, none, some, List, [], ◌∷◌, leb,
  ltb, ◌==◌, if◌then◌else◌,
}
use work_assistant_agent.Prelude.Names.{codes, text_length}

abbrev pub is_lower : ℕ → Bool
is_lower c = leb b'a' c && leb c b'z'

abbrev pub is_digit : ℕ → Bool
is_digit c = leb b'0' c && leb c b'9'

abbrev pub is_word : ℕ → Bool
is_word c = is_lower c || is_digit c

abbrev pub is_separator : ℕ → Bool
is_separator c = c == b'.' || (c == b'_' || c == b'-')

pub data IdState : Type 0 where
  first word gap : IdState

abbrev pub id_step : IdState → ℕ → Option IdState
id_step first c = if is_lower c then some word else none
id_step word c = if is_word c then some word else if is_separator c then some gap else none
id_step gap c = if is_word c then some word else none

abbrev pub id_accepts : IdState → Bool
id_accepts word = true
id_accepts _ = false

unfoldable pub id_run : IdState → List ℕ → Bool
id_run st [] = id_accepts st
id_run st (c ∷ cs) = elim (id_step st c) [ none ↦ false | some next ↦ id_run next cs ]

-- `re.fullmatch(IDENTIFIER_PATTERN, s) is not None`
unfoldable pub is_identifier : String → Bool
unfolding id_run
is_identifier s = id_run first (codes s)

-- The state of the version automaton: the component that is read, 0 to 2.
pub data VersionState : Type 0 where
  begins zero_read digits_read : ℕ → VersionState

abbrev pub version_step : VersionState → ℕ → Option VersionState
version_step (begins k) c =
    if c == b'0' then some (zero_read k) else if is_digit c then some (digits_read k) else none
version_step (zero_read k) c = if c == b'.' && ltb k 2 then some (begins (k + 1)) else none
version_step (digits_read k) c =
    if is_digit c
    then some (digits_read k)
    else if c == b'.' && ltb k 2
    then some (begins (k + 1))
    else none

abbrev pub version_accepts : VersionState → Bool
version_accepts (begins _) = false
version_accepts (zero_read k) = k == 2
version_accepts (digits_read k) = k == 2

unfoldable pub version_run : VersionState → List ℕ → Bool
version_run st [] = version_accepts st
version_run st (c ∷ cs) = elim (version_step st c) [
  | none ↦ false
  | some next ↦ version_run next cs
]

-- `re.fullmatch(VERSION_PATTERN, s) is not None`
unfoldable pub is_version : String → Bool
unfolding version_run
is_version s = version_run (begins 0) (codes s)

-- A field with `min_length=1, max_length=128, pattern=IDENTIFIER_PATTERN`; the pattern refuses "".
unfoldable pub valid_identifier : String → Bool
unfolding is_identifier
valid_identifier s = leb (text_length s) 128 && is_identifier s

-- A field with `min_length=5, max_length=32, pattern=VERSION_PATTERN`.
unfoldable pub valid_version : String → Bool
unfolding is_version
valid_version s = leb 5 (text_length s) && (leb (text_length s) 32 && is_version s)
