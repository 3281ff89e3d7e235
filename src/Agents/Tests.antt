-- ===== src/Agents/Tests.antt =====
-- Identifiers and versions as the source's tests have them.
use work_assistant_agent.Prelude.{◌≡◌, ◌↔◌, refl, true, false}
use work_assistant_agent.Prelude.Names.{codes}
use work_assistant_agent.Agents.Pattern.{is_identifier, is_version}
use work_assistant_agent.Agents.Pattern.Grammar.{Identifier, is_identifier_iff}

is_identifier_iff_example :
    (is_identifier "assistant.main_v2" ≡ true) ↔ Identifier (codes "assistant.main_v2")
is_identifier_iff_example = is_identifier_iff "assistant.main_v2"

double_separator : is_identifier "host__finalize_answer" ≡ false
unfolding is_identifier
double_separator = refl

long_version : is_version "1.10.0" ≡ true
unfolding is_version
long_version = refl

leading_zero : is_version "1.01.0" ≡ false
unfolding is_version
leading_zero = refl
