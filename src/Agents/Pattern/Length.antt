-- ===== src/Agents/Pattern/Length.antt =====
-- The least length of a version, which the fields of backend/src/work_assistant/agent_definition.py
-- ask for beside the pattern, and backend/src/work_assistant/capabilities.py does not.
use work_assistant_agent.Prelude.{
  ℕ, ◌+◌, ◌-◌, ◌*◌, ◌≤◌, ◌≡◌, String, true, List, [], ◌∷◌, arith, length, leb,
}
use work_assistant_agent.Prelude.Names.{codes, text_length}
use work_assistant_agent.Agents.Pattern.{
  VersionState, begins, zero_read, digits_read, version_run, is_version, valid_version,
}

-- How many characters must follow, at least.
abbrev missing : VersionState → ℕ
missing (begins k) = 5 - 2 * k
missing (zero_read k) = 4 - 2 * k
missing (digits_read k) = 4 - 2 * k

missing_read : (cs : List ℕ) (st : VersionState) → version_run st cs ≡ true → missing st ≤ length cs
unfolding version_run
missing_read [] (begins k) h = cc
missing_read [] (zero_read k) h = ground arith
missing_read [] (digits_read k) h = ground arith
missing_read (c ∷ cs) (begins k) h =
    ground (arith, missing_read cs (zero_read k), missing_read cs (digits_read k))
missing_read (c ∷ cs) (zero_read k) h = ground (arith, missing_read cs (begins (k + 1)))
missing_read (c ∷ cs) (digits_read k) h =
    ground (arith, missing_read cs (begins (k + 1)), missing_read cs (digits_read k))

pub is_version-valid :
    (s : String) → is_version s ≡ true → leb (text_length s) 32 ≡ true → valid_version s ≡ true
unfolding is_version valid_version
is_version-valid s v short = ground (arith, missing_read (codes s) (begins 0))
