-- ===== src/Capabilities/Tools.antt =====
-- `ToolSource`, `ParsedToolOutcome` and `RegisteredTool` of
-- backend/src/work_assistant/capabilities.py. The functions that a registration brings along (its
-- input schema, its summary of an input, its parser of an output) are fields; `none` is a raise.
use work_assistant_agent.Prelude.{
  ℕ, Bool, ◌&&◌, ◌||◌, not, String, Option, List, Result, ok, err, leb, ltb, ◌==◌, all, map,
  is_unique, str_eq, if◌then◌else◌,
}
use work_assistant_agent.Prelude.Names.{codes, is_blank, text_length}
use work_assistant_agent.Agents.Pattern.{is_identifier, is_version, is_digit}
use work_assistant_agent.Capabilities.Values.{Fields}

pub record ToolSource : Type 0 where
  pub source_id : String
  pub label : String
  pub description : String

-- `Field(min_length=1, max_length=...)`
abbrev pub sized : ℕ → String → Bool
sized most s = leb 1 (text_length s) && leb (text_length s) most

unfoldable pub valid_source : ToolSource → Bool
valid_source s = sized 128 s.source_id && (sized 200 s.label && sized 1000 s.description)

pub record ParsedToolOutcome : Type 0 where
  pub output_summary : String
  pub fact_fingerprint : String
  pub sources : List ToolSource

abbrev is_hex : ℕ → Bool
is_hex c = is_digit c || (leb b'a' c && leb c b'f')

-- `^[0-9a-f]{64}$`
unfoldable pub is_sha256 : String → Bool
is_sha256 s = text_length s == 64 && all is_hex (codes s)

abbrev pub source_ids : List ToolSource → List String
source_ids sources = map (λ s. s.source_id) sources

unfoldable pub valid_outcome : ParsedToolOutcome → Bool
unfolding valid_source is_sha256
valid_outcome o =
    sized 1000 o.output_summary
    && (is_sha256 o.fact_fingerprint
        && (all valid_source o.sources && is_unique (source_ids o.sources)))

-- `langchain_core.messages.ToolMessage`, as far as it is read
pub record ToolMessage : Type 0 where
  pub tool_call_id : String
  pub name : Option String
  pub is_success : Bool
  pub content : String

pub record RegisteredTool : Type 0 where
  pub tool_id : String
  pub version : String
  pub enabled : Bool
  pub label : String
  pub implementation_name : String
  pub validate_input : Fields → Option Fields
  pub summarize_input : Fields → Option String
  pub parse_output : ToolMessage → Option ParsedToolOutcome
  pub terminal_after_success : Bool

pub data CapabilityConfigurationError : Type 0 where
  registered_tool_invalid registered_tool_name_mismatch : CapabilityConfigurationError
  tool_registry_invalid duplicate_registered_tool empty_tool_registry : CapabilityConfigurationError

-- `RegisteredTool.__post_init__`
unfoldable pub register : RegisteredTool → Result CapabilityConfigurationError RegisteredTool
unfolding is_identifier is_version is_blank
register t =
    if ltb 128 (text_length t.tool_id) || not (is_identifier t.tool_id)
    then err registered_tool_invalid
    else if ltb 32 (text_length t.version) || not (is_version t.version)
    then err registered_tool_invalid
    else if not (str_eq t.implementation_name t.tool_id)
    then err registered_tool_name_mismatch
    else if is_blank (codes t.label) || ltb 200 (text_length t.label)
    then err registered_tool_invalid
    else ok t
