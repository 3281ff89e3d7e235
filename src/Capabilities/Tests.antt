-- ===== src/Capabilities/Tests.antt =====
-- A registry with an enabled and a disabled Tool.
use work_assistant_agent.Prelude.{◌≡◌, refl, true, false, none, some, [], ◌∷◌, contains, is_ok}
use work_assistant_agent.Prelude.Dict.{lookup, insert}
use work_assistant_agent.Capabilities.Tools.{RegisteredTool}
use work_assistant_agent.Capabilities.Registry.{
  ToolRegistry, build_registry, enabled_tool_ids, require,
}
use work_assistant_agent.Capabilities.Registry.Laws.{build_registry-require}

abbrev search_tool : RegisteredTool
search_tool = record {
  tool_id = "search";
  version = "1.0.0";
  enabled = true;
  label = "Search";
  implementation_name = "search";
  validate_input = λ fields. some fields;
  summarize_input = λ fields. none;
  parse_output = λ message. none;
  terminal_after_success = false;
}

abbrev old_tool : RegisteredTool
old_tool = record search_tool { tool_id = "old"; implementation_name = "old"; enabled = false }

abbrev tools : ToolRegistry
tools = record {
  registry_id = "tools";
  version = "1.0.0";
  records = ("search", search_tool) ∷ ("old", old_tool) ∷ [];
}

build_registry-require_example :
    contains "old" (enabled_tool_ids tools) ≡ is_ok (require tools "old")
unfolding build_registry lookup insert
build_registry-require_example =
    build_registry-require "tools" "1.0.0" (search_tool ∷ old_tool ∷ []) tools "old" refl
