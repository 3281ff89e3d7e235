-- ===== src/Policy/Plan.antt =====
-- `ExecutionPlanEvidence` and its parts (backend/src/work_assistant/execution_policy.py), and the
-- versions of the context layers (backend/src/work_assistant/context_builder.py).
use work_assistant_agent.Prelude.{ℕ, Bool, ◌&&◌, String, List, leb, all, map, is_unique, is_subset}
use work_assistant_agent.Prelude.Names.{text_length}
use work_assistant_agent.Agents.Pattern.{valid_identifier, valid_version}
use work_assistant_agent.Agents.Definition.{
  AgentDefinition, AgentBudget, ResultContract, valid_budget, valid_tool_names,
}
use work_assistant_agent.Capabilities.Tools.{is_sha256}

pub record VersionedToolEvidence : Type 0 where
  pub tool_id : String
  pub version : String

pub record ContextLayerVersions : Type 0 where
  pub host : String
  pub agent : String
  pub run : String
  pub conversation : String
  pub tool_data : String

-- `ContextBuilder.build(...).layer_versions`
unfoldable pub layer_versions : AgentDefinition → ContextLayerVersions
layer_versions a = record {
  host = "1.0.0";
  agent = a.prompt.version;
  run = "1.0.0";
  conversation = "product-message-v0.3";
  tool_data = "tool-message-v1";
}

-- A `ContextBuilder`, as the plan sees it: its version, and the versions of the layers that it builds.
pub record ContextBuilder : Type 0 where
  pub version : String
  pub built_versions : AgentDefinition → ContextLayerVersions

-- `ContextBuilder()`
unfoldable pub default_context_builder : ContextBuilder
default_context_builder = record { version = "1.0.0"; built_versions = layer_versions }

pub record ExecutionPlanEvidence : Type 0 where
  pub agent_schema_version : String
  pub agent_id : String
  pub agent_version : String
  pub model_profile_id : String
  pub model_profile_version : String
  pub model_provider : String
  pub model_id : String
  pub prompt_id : String
  pub prompt_version : String
  pub prompt_sha256 : String
  pub context_builder_version : String
  pub context_layer_versions : ContextLayerVersions
  pub capability_policy_id : String
  pub capability_policy_version : String
  pub tool_registry_id : String
  pub tool_registry_version : String
  pub agent_allowed_tools : List String
  pub base_tools : List String
  pub visible_tools : List VersionedToolEvidence
  pub budget : AgentBudget
  pub result_contract : ResultContract

abbrev pub valid_name : String → ℕ → Bool
valid_name s most = leb 1 (text_length s) && leb (text_length s) most

unfoldable pub valid_layers : ContextLayerVersions → Bool
valid_layers v =
    valid_version v.host
    && (valid_version v.agent
        && (valid_version v.run && (valid_name v.conversation 64 && valid_name v.tool_data 64)))

abbrev pub tool_ids : List VersionedToolEvidence → List String
tool_ids tools = map (λ (t : VersionedToolEvidence). t.tool_id) tools

unfoldable pub valid_tool_evidence : VersionedToolEvidence → Bool
valid_tool_evidence t = valid_identifier t.tool_id && valid_version t.version

-- `validate_capability_intersection`
unfoldable pub valid_intersection : ExecutionPlanEvidence → Bool
valid_intersection p =
    is_subset p.base_tools p.agent_allowed_tools
    && (is_unique (tool_ids p.visible_tools)
        && (is_subset (tool_ids p.visible_tools) p.base_tools
            && is_subset (tool_ids p.visible_tools) p.agent_allowed_tools))

-- The fields that name the Agent and its prompt.
unfoldable pub valid_agent_fields : ExecutionPlanEvidence → Bool
valid_agent_fields p =
    valid_version p.agent_schema_version
    && (valid_identifier p.agent_id
        && (valid_version p.agent_version
            && (valid_identifier p.prompt_id
                && (valid_version p.prompt_version && is_sha256 p.prompt_sha256))))

-- The fields that name the model, the policy and the registry.
unfoldable pub valid_host_fields : ExecutionPlanEvidence → Bool
valid_host_fields p =
    valid_identifier p.model_profile_id
    && (valid_version p.model_profile_version
        && (leb (text_length p.model_provider) 64
            && (valid_identifier p.model_provider
                && (valid_name p.model_id 128
                    && (valid_version p.context_builder_version
                        && (valid_layers p.context_layer_versions
                            && (valid_identifier p.capability_policy_id
                                && (valid_version p.capability_policy_version
                                    && (valid_identifier p.tool_registry_id
                                        && valid_version p.tool_registry_version)))))))))

-- `ResultContractEvidence`
unfoldable pub valid_contract_evidence : ResultContract → Bool
valid_contract_evidence r =
    valid_version r.schema_version && (leb 1 r.max_answer_chars && leb r.max_answer_chars 32000)

unfoldable pub valid_plan : ExecutionPlanEvidence → Bool
valid_plan p =
    valid_agent_fields p
    && (valid_host_fields p
        && (valid_tool_names p.agent_allowed_tools
            && (valid_tool_names p.base_tools
                && (all valid_tool_evidence p.visible_tools
                    && (valid_budget p.budget
                        && (valid_contract_evidence p.result_contract && valid_intersection p))))))
