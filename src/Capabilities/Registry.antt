-- ===== src/Capabilities/Registry.antt =====
-- `ToolRegistry` of backend/src/work_assistant/capabilities.py. `fingerprint` stands for the SHA-256
-- of a Tool's id, version and canonical JSON arguments.
pub mod Laws
pub mod Registered
use work_assistant_agent.Prelude.{
  ℕ, Bool, true, false, ◌&&◌, ◌||◌, not, String, Option, none, some, List, [], ◌∷◌, Result, ok, err,
  ltb, map, filter, is_none, if◌then◌else◌,
}
use work_assistant_agent.Prelude.Dict.{Dict, lookup, insert, has_key, values}
use work_assistant_agent.Prelude.Names.{text_length}
use work_assistant_agent.Agents.Pattern.{is_identifier, is_version}
use work_assistant_agent.Capabilities.Values.{Fields}
use work_assistant_agent.Capabilities.Tools.{
  RegisteredTool, ToolMessage, ParsedToolOutcome, valid_outcome, CapabilityConfigurationError,
  tool_registry_invalid, duplicate_registered_tool, empty_tool_registry,
}

pub record ToolRegistry : Type 0 where
  pub registry_id : String
  pub version : String
  pub records : Dict RegisteredTool

pub data ToolInvocationContractError : Type 0 where
  tool_unavailable tool_arguments_invalid tool_execution_failed tool_output_invalid :
      ToolInvocationContractError

unfoldable pub collect :
    Dict RegisteredTool
    → List RegisteredTool
    → Result CapabilityConfigurationError (Dict RegisteredTool)
collect records [] = ok records
collect records (tool ∷ tools) =
    let rest = collect (insert tool.tool_id tool records) tools in
    if has_key tool.tool_id records then err duplicate_registered_tool else rest

-- `ToolRegistry.__init__`
unfoldable pub build_registry :
    String → String → List RegisteredTool → Result CapabilityConfigurationError ToolRegistry
unfolding collect is_identifier is_version
build_registry registry_id version tools =
    if ltb 128 (text_length registry_id)
      || (not (is_identifier registry_id)
          || (ltb 32 (text_length version) || not (is_version version)))
    then err tool_registry_invalid
    else elim (collect [] tools) [
      | err e ↦ err e
      | ok [] ↦ err empty_tool_registry
      | ok (entry ∷ entries) ↦
          ok (record { registry_id = registry_id; version = version; records = entry ∷ entries })
    ]

unfoldable pub enabled_tool_ids : ToolRegistry → List String
enabled_tool_ids r =
    map (λ (t : RegisteredTool). t.tool_id)
      (filter (λ (t : RegisteredTool). t.enabled) (values r.records))

abbrev if_enabled : Option RegisteredTool → Result ToolInvocationContractError RegisteredTool
if_enabled none = err tool_unavailable
if_enabled (some t) = if t.enabled then ok t else err tool_unavailable

-- `ToolRegistry.require`
unfoldable pub require : ToolRegistry → String → Result ToolInvocationContractError RegisteredTool
require r tool_id = if_enabled (lookup tool_id r.records)

abbrev pub Fingerprint : Type 0
Fingerprint = String → String → Fields → String

canonical :
    Fingerprint
    → RegisteredTool
    → Option Fields
    → Result ToolInvocationContractError (Fields × String)
canonical fingerprint t none = err tool_arguments_invalid
canonical fingerprint t (some validated) = ok (validated, fingerprint t.tool_id t.version validated)

-- `ToolRegistry.canonicalize_call`
unfoldable pub canonicalize_call :
    Fingerprint
    → ToolRegistry
    → String
    → Fields
    → Result ToolInvocationContractError (Fields × String)
unfolding canonical
canonicalize_call fingerprint r tool_id arguments = elim (require r tool_id) [
  | err e ↦ err e
  | ok t ↦ canonical fingerprint t (t.validate_input arguments)
]

revalidated : Option ParsedToolOutcome → Result ToolInvocationContractError ParsedToolOutcome
revalidated none = err tool_output_invalid
revalidated (some o) = if valid_outcome o then ok o else err tool_output_invalid

-- `ToolRegistry.parse_tool_message`
unfoldable pub parse_tool_message :
    ToolRegistry → String → ToolMessage → Result ToolInvocationContractError ParsedToolOutcome
unfolding revalidated
parse_tool_message r tool_id message =
    if not message.is_success
    then err tool_execution_failed
    else elim (require r tool_id) [ err e ↦ err e | ok t ↦ revalidated (t.parse_output message) ]
